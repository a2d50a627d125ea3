-- ===== src/Lib.antt =====
-- A model of the transmit safety core of flex1500d, the daemon for the FLEX-1500 radio, and of the
-- protocol and data path around it, with the theorems that make them correct.
--
-- The program. One radio transmitter has three would-be owners: the physical microphone button, a
-- Tune carrier asked for over HTTP, and a network transmit session. `src/tx_control.c` hands the
-- transmitter to one owner at a time, through a start and a stop callback that drive the hardware.
-- `src/tune_control.c` and `src/network_tx.c` are leased clients of that controller,
-- `src/station_owner.c` is the lease on the radio's settings, `src/tx_lifecycle.c` runs the
-- hardware cleanup after a failed or ended transmission, and the main loop of `src/flex1500d.c`
-- ticks all of them. `src/protocol.c` builds and decodes the radio's packets and decides which
-- frequencies may be transmitted on. Received samples go through the ring of `src/iq.c` and the
-- publisher of `src/publisher.c` to a client, and `src/network.c` parses the requests that set the
-- radio.
--
-- The files.
--   Base          Boolean tests, lists over native numbers, integers, wrapping arithmetic.
--   TxControl     `src/tx_control.c`: `TxControl` is `flex1500_tx_control`, and `init`,
--                 `arm_physical_ptt`, `request`, `release`, `release_graceful`, `physical_ptt`,
--                 `tick`, `shutdown` and `set_timeout_seconds` are the functions with the prefix
--                 `flex1500_tx_control_`. Calls is any sequence of them.
--   TxLifecycle   `src/tx_lifecycle.c`: the plan as a set of bits and its execution.
--   StationOwner  `src/station_owner.c`, with an abstract lease in Refine.
--   TuneControl   `src/tune_control.c`, with its diagnostics counters.
--   NetworkTx     `src/network_tx.c`, with the transmit profile's validation.
--   Station       The transmit side of the main loop of `src/flex1500d.c`: start, one round of the
--                 watchdogs, the microphone's edges, a USB failure and the recovery from it.
--                 Events lists what can happen; Reach in it is the states that follow.
--   Protocol      `src/protocol.c`: decoders here, command builders in Builders, filter tables
--                 and frequency policies in Bands.
--   IqRing        The ring of `src/iq.c`, with the bounded queue that it refines.
--   Publisher     `src/publisher.c` and `flex1500_encode_iq_frame` of `src/network.c`.
--                 Reader is a client's reading of a frame, written from its layout.
--   RtlTcp        The command parser of `src/rtl_tcp.c`.
--   Requests      The five request parsers of `src/network.c`.
--   UsbRx         The transmit side of `src/usb_rx.c`: Stream is the endpoint-0x01 stream and its
--                 completions, Transmit the starts, stops and preparation, Tune the receive
--                 commands, Graceful the stop that lets the queue run empty. `trace` is a field of
--                 the model alone, which keeps what was offered to the command endpoint.
--   Daemon        `daemon_tx_owner_start` and `daemon_tx_owner_stop` of `src/flex1500d.c`, the
--                 controller's two callbacks over that receiver.
--   Api           `flex1500_api_dispatch` of `src/api.c` over the daemon's variables: Text reads the
--                 request, Profile its body, Handlers the station lease, Session the network session,
--                 Dispatch Tune and the settings of the transmitter, Receive the rest. Holder, Takes
--                 and Keying are about the transmitter's owner.
--   Http          `flex1500_build_http_response` of `src/network.c`; Length reads its text.
--   TxAudio       `src/tx_audio_stream.c` and `src/tx_dsp.c`: Push has what enters the queue, Render
--                 what leaves it, Dsp the modulator, Raw the measurements of raw I/Q. Queue,
--                 Sound and Enter relate them to a list.
--   RxStream      The receive and status transfers of `src/usb_rx.c` and the sample conversion of
--                 `src/iq.c`: Process has a packet, Complete the completions with the functions'
--                 names, Running sequences of them.
--   System        The dispatch with `api_tune_rx` and `api_set_rx_gain` of `src/flex1500d.c`, the
--                 bytes of its rtl_tcp client in Rtl, and in Whole the states that it can reach.
-- A directory beside a file holds its lemmas, and Tests in it runs on concrete inputs.
--
-- The correspondence. A function that changes a struct through a pointer takes the struct and
-- returns it beside its result; a `bool` function with an output pointer returns an Option. Where
-- two structs point at one controller, the controller is passed beside them, so that the sharing
-- is explicit. Guards stand in the order of the source. Clocks and counters of 64 bits wrap, in
-- `sub64` and `add64`; a lemma that needs a clock that has not gone back says so. All loops are
-- structural recursion over a list or a number of steps, so that there is no fuel, but for the
-- digits of a number in Http, where one more than the number is given and is enough.
--
-- Outside the model. In TxControl, TuneControl, NetworkTx and Station the two callbacks of the
-- controller are any functions over a context: what they do to the hardware is a hypothesis of the
-- theorems that speak of the air (a stop that returns 0 has unkeyed the radio), and they do not see
-- the sessions and counters that the daemon's own callbacks alias. Daemon puts the real callbacks
-- there, over the receiver of UsbRx. The calls of libusb are parameters over the state of the bus:
-- a bus gives the finite list of event rounds that fall into a wait, which the loops go through, so
-- that a wait of `release_tune_stream` that libusb never ends is left out. Null pointers, memory
-- release, threads and sockets are left out, as is the text of JSON and of log messages. Float
-- arithmetic is a parameter (the tuning word, the operations of `Floats` in TxAudio, and in Daemon the
-- answers of `src/tx_audio_stream.c`) or passed by as bit patterns (the samples of the publisher), and
-- `sscanf` is a parameter too. UsbRx and RxStream each have the fields of `flex1500_usb_rx` that
-- their functions use; a loss of the receive listener is an event of UsbRx, and no completion runs
-- while `send_rx_command` waits for its own transfer. Signed overflow in the squelch parser is taken
-- to wrap. Opening and closing the device, the demodulators, the resampler and the web
-- page are not modelled.
mod Base
pub mod TxControl
pub mod TxLifecycle
pub mod StationOwner
pub mod TuneControl
pub mod NetworkTx
pub mod Station
pub mod Protocol
pub mod IqRing
pub mod Requests
pub mod Http
pub mod Publisher
pub mod RtlTcp
pub mod TxAudio
pub mod UsbRx
pub mod RxStream
pub mod Daemon
pub mod Api
pub mod System
