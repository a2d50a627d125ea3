-- ===== src/UsbRx/Order.antt =====
-- What a start of src/usb_rx.c that returns 0 has offered to the command endpoint.
use mathlib.Core.Option.{Option, some, none}
use flex1500d.Base.{
  ℕ, ◌+◌, ◌%◌, ◌≡◌, refl, Bool, true, false, List, [], ◌∷◌, ◌++◌, Bool-cases, Option-cases, inl,
  inr, arith,
}
use flex1500d.Base.Ints.{is_zero}
use flex1500d.Protocol.Fields.{
  Command, pa_filter, tuning_word, transmit, amplifier, transition_mute, build,
}
use flex1500d.UsbRx.{UsbRx, Libusb, Sent, send_rx_command, issue}
use flex1500d.UsbRx.Transmit.{
  Step, ◌>>◌, checked, start_stream, key_up, go_on_air, tune_sequence, audio_sequence,
}
use flex1500d.UsbRx.Actions.{start_tune_stream-trace, service-trace}

-- The second trace is the first with packets of the commands on it, newest first, each of them
-- transferred as a whole.
pub data Follows (old : List Sent) : List Command → List Sent → Type 0 where
  start : Follows old [] old
  more :
      {c : Command} {cs : List Command} {log : List Sent} (index : ℕ) (packet : List ℕ)
      → build index c ≡ some packet
      → Follows old cs log
      → Follows old (c ∷ cs) (record { packet = packet; delivered = true } ∷ log)

-- What a start sends, the last command first.
unfoldable pub start_commands : (filter w : ℕ) → List Command
start_commands filter w =
    transition_mute false
    ∷ transmit true
    ∷ tuning_word w
    ∷ transition_mute true
    ∷ amplifier true
    ∷ pa_filter filter
    ∷ []

join :
    {a b c : List Sent} {cs ds : List Command}
    → Follows a cs b
    → Follows b ds c
    → Follows a (ds ++ cs) c
join f start = f
join f (more index packet e g) = more index packet e (join f g)

module _ {W : Type 0} where
  -- A step that succeeds has sent the commands.
  unfoldable pub Sends : List Command → Step W → Type 0
  Sends cs m = (r : UsbRx W) → (m r).0 ≡ true → Follows r.trace cs (m r).1.trace

  Sends-sequence :
      (cs ds : List Command) (m k : Step W) → Sends cs m → Sends ds k → Sends (ds ++ cs) (m >> k)
  unfolding Sends ◌>>◌
  Sends-sequence cs ds m k f g r h = elim (Bool-cases (m r).0) [
    | inl e ↦ rw e (join (f r e) (g (m r).1 (ground arith)))
    | inr e ↦ absurd (ground arith)
  ]

module _ {W : Type 0} (usb : Libusb W) (word : ℕ → ℕ) where
  pub send_delivered :
      (packet : List ℕ) (r : UsbRx W)
      → is_zero (send_rx_command usb packet r).0 ≡ true
      → (send_rx_command usb packet r).1.trace
        ≡ record { packet = packet; delivered = true } ∷ r.trace
  unfolding send_rx_command
  send_delivered packet r h = ground arith

  issue_refused :
      (b : ℕ → Option (List ℕ)) (r : UsbRx W)
      → b r.next_command_index ≡ none
      → is_zero (issue usb b r).0 ≡ false
  unfolding issue
  issue_refused b r e = ground arith

  issue_delivered :
      (b : ℕ → Option (List ℕ)) (packet : List ℕ) (r : UsbRx W)
      → b r.next_command_index ≡ some packet
      → is_zero (issue usb b r).0 ≡ true
      → (issue usb b r).1.trace ≡ record { packet = packet; delivered = true } ∷ r.trace
  unfolding issue
  issue_delivered b packet r e h = ground (
    arith,
    send_delivered packet (record r { next_command_index = (r.next_command_index + 1) % 256 }),
  )

  issue-Sends : (c : Command) → Sends (c ∷ []) (checked (issue usb (λ index. build index c)))
  unfolding Sends
  issue-Sends c r h = elim (Option-cases (build r.next_command_index c)) [
    | inl e ↦ absurd (ground (arith, issue_refused (λ index. build index c) r e))
    | inr (packet, e) ↦
        rw (issue_delivered (λ index. build index c) packet r e h)
          (more r.next_command_index packet e start)
  ]

  silent-Sends : (m : Step W) → ((r : UsbRx W) → (m r).1.trace ≡ r.trace) → Sends [] m
  unfolding Sends
  silent-Sends m f r h = rw (f r) start

  -- A command, or a step without one, before the rest of a sequence.
  send :
      (c : Command) (ds : List Command) (k : Step W)
      → Sends ds k
      → Sends (ds ++ (c ∷ [])) (checked (issue usb (λ index. build index c)) >> k)
  send c ds k g = Sends-sequence (c ∷ []) ds _ k (issue-Sends c) g

  pass :
      (ds : List Command) (m k : Step W)
      → ((r : UsbRx W) → (m r).1.trace ≡ r.trace)
      → Sends ds k
      → Sends (ds ++ []) (m >> k)
  pass ds m k f g = Sends-sequence [] ds m k (silent-Sends m f) g

  start_stream-Sends :
      (g : Bool) (n : ℕ) → Sends (amplifier true ∷ pa_filter n ∷ []) (start_stream usb word g n)
  unfolding start_stream build
  start_stream-Sends g n =
      pass (amplifier true ∷ pa_filter n ∷ []) _ _ (λ r. refl)
        (send (pa_filter n) (amplifier true ∷ []) _ (
          pass (amplifier true ∷ []) _ _ (λ r. refl)
            (send (amplifier true) [] _ (
              pass [] _ _ (start_tune_stream-trace usb word g)
                (silent-Sends _ (service-trace usb word 250))))))

  key_up-Sends :
      (w : ℕ)
      → Sends (transmit true ∷ tuning_word w ∷ transition_mute true ∷ []) (key_up usb word w)
  unfolding key_up build
  key_up-Sends w =
      pass (transmit true ∷ tuning_word w ∷ transition_mute true ∷ []) _ _ (λ r. refl)
        (send (transition_mute true) (transmit true ∷ tuning_word w ∷ []) _ (
          pass (transmit true ∷ tuning_word w ∷ []) _ _ (λ r. refl)
            (send (tuning_word w) (transmit true ∷ []) _ (
              pass (transmit true ∷ []) _ _ (λ r. refl)
                (send (transmit true) [] _ (silent-Sends _ (λ r. refl)))))))

  go_on_air-Sends : Sends (transition_mute false ∷ []) (go_on_air usb word)
  unfolding go_on_air build
  go_on_air-Sends =
      pass (transition_mute false ∷ []) _ _ (service-trace usb word 200)
        (send (transition_mute false) [] _ (silent-Sends _ (λ r. refl)))

  pub tune_sequence-Sends :
      (filter w : ℕ) → Sends (start_commands filter w) (tune_sequence usb word filter w)
  unfolding tune_sequence start_commands
  tune_sequence-Sends filter w =
      Sends-sequence _
        (transition_mute false ∷ transmit true ∷ tuning_word w ∷ transition_mute true ∷ []) _ _
        (start_stream-Sends false filter)
        (pass _ _ _ (λ r. refl)
          (Sends-sequence _ (transition_mute false ∷ []) _ _ (key_up-Sends w)
            (pass _ _ _ (λ r. refl) go_on_air-Sends)))

  pub audio_sequence-Sends :
      (capture : Bool) (filter w : ℕ)
      → Sends (start_commands filter w) (audio_sequence usb word capture filter w)
  unfolding audio_sequence start_commands
  audio_sequence-Sends capture filter w =
      Sends-sequence _
        (transition_mute false ∷ transmit true ∷ tuning_word w ∷ transition_mute true ∷ []) _ _
        (start_stream-Sends true filter)
        (Sends-sequence _ (transition_mute false ∷ []) _ _ (key_up-Sends w)
          (pass _ _ _ (λ r. refl) go_on_air-Sends))
