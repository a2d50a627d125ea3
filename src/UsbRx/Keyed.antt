-- ===== src/UsbRx/Keyed.antt =====
-- Whether the radio may be on the air, read from what was offered to the command endpoint of
-- src/usb_rx.c.
use mathlib.Core.Option.{Option, some}
use flex1500d.Base.{
  ℕ, ◌+◌, ◌%◌, ◌<◌, ◌≡◌, ◌≢◌, Bool, true, false, List, [], ◌∷◌, ◌&&◌, if◌then◌else◌, ◌==◌,
  Option-cases, inl, inr, arith,
}
use flex1500d.Base.Ints.{is_zero}
use flex1500d.Protocol.{store_be32}
use flex1500d.Protocol.Fields.{word_at}
use flex1500d.Protocol.Builders.{blank, build_tr_request}
use flex1500d.UsbRx.{UsbRx, Libusb, Sent, send_rx_command, issue}

-- The packet is SET_TR with parameter 1, or with parameter 0.
unfoldable pub sets_tr : Bool → List ℕ → Bool
sets_tr transmit packet =
    word_at packet 4 == 1276 && word_at packet 8 == (if transmit then 1 else 0)

-- Newest first: a SET_TR(1) may have keyed the radio also where its transfer failed, and only a
-- SET_TR(0) that was transferred has unkeyed it.
unfoldable pub may_be_keyed : List Sent → Bool
may_be_keyed [] = false
may_be_keyed (s ∷ rest) =
    if sets_tr true s.packet
    then true
    else if sets_tr false s.packet && s.delivered
    then false
    else may_be_keyed rest

-- A packet of another command.
unfoldable pub IsOther : List ℕ → Type 0
IsOther packet = word_at packet 4 ≢ 1276

pub one-IsOther :
    (index opcode v : ℕ)
    → opcode < 4294967296
    → opcode ≢ 1276
    → IsOther (store_be32 (blank index opcode) 8 v)
unfolding IsOther word_at store_be32 blank
one-IsOther index opcode v h n = omega arith

pub two-IsOther :
    (index opcode v w : ℕ)
    → opcode < 4294967296
    → opcode ≢ 1276
    → IsOther (store_be32 (store_be32 (blank index opcode) 8 v) 12 w)
unfolding IsOther word_at store_be32 blank
two-IsOther index opcode v w h n = omega arith

tr_word :
    (index v : ℕ)
    → v < 2
    → word_at (store_be32 (blank index 1276) 8 v) 4 ≡ 1276
      × word_at (store_be32 (blank index 1276) 8 v) 8 ≡ v
unfolding word_at store_be32 blank
tr_word index v h = omega arith

module _ {W : Type 0} (usb : Libusb W) where
  send_keyed :
      (packet : List ℕ) (r : UsbRx W)
      → IsOther packet
      → may_be_keyed (send_rx_command usb packet r).1.trace ≡ may_be_keyed r.trace
  unfolding send_rx_command may_be_keyed sets_tr IsOther
  send_keyed packet r h = ground arith

  -- A command other than SET_TR does not change whether the radio may be keyed.
  pub issue_keyed :
      (build : ℕ → Option (List ℕ)) (r : UsbRx W)
      → ((packet : List ℕ) → build r.next_command_index ≡ some packet → IsOther packet)
      → may_be_keyed (issue usb build r).1.trace ≡ may_be_keyed r.trace
  unfolding issue
  issue_keyed build r h = elim (Option-cases (build r.next_command_index)) [
    | inl e ↦ ground arith
    | inr (packet, e) ↦
        let r' = record r { next_command_index = (r.next_command_index + 1) % 256 } in
        ground (arith, send_keyed packet r' (h packet e))
  ]

  pub issue_unkey :
      (r : UsbRx W)
      → is_zero (issue usb (λ index. build_tr_request index false) r).0 ≡ true
      → may_be_keyed (issue usb (λ index. build_tr_request index false) r).1.trace ≡ false
  unfolding issue send_rx_command may_be_keyed sets_tr build_tr_request
  issue_unkey r h = ground (arith, tr_word r.next_command_index 0 (omega arith))

  -- An unkey that failed leaves it as it was.
  pub issue_unkey_keeps :
      (r : UsbRx W)
      → may_be_keyed (issue usb (λ index. build_tr_request index false) r).1.trace ≡ true
      → may_be_keyed r.trace ≡ true
  unfolding issue send_rx_command may_be_keyed sets_tr build_tr_request
  issue_unkey_keeps r h = ground (arith, tr_word r.next_command_index 0 (omega arith))
