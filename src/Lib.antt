-- ===== src/Lib.antt =====
-- SiteSim, a simulator of the control channel of a P25 trunking site: what it sends, how it decides
-- what to send, and what it does with what it receives. The numbers are natural numbers below the
-- width of the C++ type, and the wrap-around of unsigned words is written out.
--
-- The program. A producer thread (`ControlChannel::producerThread`, src/tx/ControlChannel.cpp) picks a
-- block of twelve bytes for every frame: a system message in rotation, or a response from a queue. The
-- block is framed (src/p25/Frame.cpp) with a network identifier (src/p25/NID.hpp), a trellis code and an
-- interleaver (src/p25/TSBK.cpp) into dibits, which a modulator turns into samples. `SoapyTx`
-- (src/tx/SoapyTx.cpp) keeps the samples in a ring buffer, from which a transmitter thread feeds the
-- radio. `RxPipeline` (src/rx/RxPipeline.cpp) runs a decoder for what subscribers send; its handler
-- queues responses on the control channel, and what the decoder prints is caught from stderr. `App`
-- (src/ui/App.cpp) holds the radio, the control channel and the receiver; `SitePanel` edits, keeps and
-- applies the site's configuration, `CCPanel` starts and stops everything, and `LogPanel` shows the logs
-- (src/ui). src/uplink_test_main.cpp runs the receiver alone.
--
-- The files.
--   Base       lists, words, tests and integers that all modules use.
--   Bits       the bitwise operations as arithmetic.
--   P25/Nid    `kBchMatrix` and `encodeBCH` of NID.hpp.
--   P25/Tsbk   TSBK.cpp: Crc (`crcCCITT`), Trellis (`trellisEncode`), Interleave (`dataInterleave`), Block
--              (`buildTSBK`), Messages (the builders of messages) and Sync (`BuildSyncBcast`).
--   P25/Frame  Frame.cpp: `BuildFrame`, `BuildTDUFrame` and the status symbols.
--   P25/C4fm   C4FM.cpp: the filter and the modulator, over any arithmetic (`Arith`).
--   Tx/Ring    the ring buffer of SoapyTx.cpp, the turns of `txThread`, and the waiting of `write`. A step is
--              a whole call of `ringWrite` or `ringRead`; in Threads it is one byte, or a load or a store of a position.
--   Tx/Device  opening and closing of the radio in SoapyTx.cpp; how the calls of SoapySDR end is an argument.
--              Tuning is the settings, and those that a device took in order: what SoapySDR makes of an overall
--              gain beside that of the amplifier is its own. Thread is `txThread` turn by turn, beside the
--              calls of its owner, who waits for it in `stopTx`. Plugins is `ensureSoapyPluginPath`, for Windows.
--   Tx/Feed    the back-off of `producerThread` and `sendFrame`, with the modulator and the ring, as steps.
--              Producer is the loop of `producerThread` turn by turn, with the flag `m_running`.
--   Tx/Control ControlChannel.cpp: the configuration, the queue, the log, and the rounds of the producer.
--              Run orders rounds and requests as the locks let them; Air is what a subscriber hears of it.
--   Rx/Handler `handleIspTsbk` of RxPipeline.cpp. Heard follows an answer through the producer to the air; Logged is
--              the line of the log.
--   Rx/Lines   `stderrReaderThread` and `onWriteEvent` of RxPipeline.cpp.
--   Rx/Capture `startStderrCapture` and `stopStderrCapture`, over the table of open descriptors.
--   Rx/Pipeline `configure`, `start`, `stop`, the engine's thread and the destructor of `RxPipeline`. dsd-neo's
--              engine is what may return, or not, before it is told to.
--   Rx/Singleton `g_rx_pipeline` and the two hooks of dsd-neo in RxPipeline.cpp.
--   Rx/Stub    the receiver of RxPipeline.cpp for builds without dsd-neo.
--   Uplink     src/uplink_test_main.cpp: its arguments, and `main` with the receiver (Main).
--   Ui/Site    `SitePanel` of src/ui/SitePanel.cpp: Store is the configuration file, with the JSON library as a
--              parameter (`Json`); the fields; the identifiers that `Apply` takes.
--   Ui/Console the buttons of src/ui/CCPanel.cpp and `Apply`, over the control channel, the radio and the
--              receiver together.
--   Ui/App     src/ui/App.cpp: the device that `init` opens, the menu of devices, and `shutdown`. Run is the
--              application from `init` to its destructor, frame by frame, and `main` of src/main.cpp; what SDL and
--              Dear ImGui report in a frame is an argument, and the frames to come are a list. A null context of drawing,
--              and a line that the receiver logs after the log panel is gone, make the end undefined (`Fate`).
--   Ui/Band    `BandSelector` of src/ui/BandSelector.hpp, with what its widgets return as an argument.
--   Ui/Log     `LogPanel` of src/ui/LogPanel.cpp.
-- The children of a module hold its proofs, a child Tests holds instances, and a child Samples
-- the data that tests share. Receivers and decoders
-- (Frame.Receive, Control.Air, Trellis.Decode, Block.Parse, Messages.Decode, Sync.Decode) are descriptions of the
-- other end, which the program does not have.
--
-- Fuel. `pad_status` makes at most 35 rounds, and `copy_pairs` and `copy_columns` of the interleaver make
-- one round more than their loops. `wait_write` makes at most 256 turns. Everything else recurses on its data.
--
-- Not modelled: the drawing and the layout of the windows, the initial values of dsd-neo's
-- options, and the vendored libraries. Elsewhere than
-- in Tx/Feed/Producer and Tx/Device/Thread, the threads of the producer and of the transmitter are modelled as
-- the flags that start and stop leave. The index of the rotation (`sysIdx`, an int) is a number without bound:
-- what C++ does after 2^31 system messages is not modelled. Exceptions of SoapySDR in `txThread` are not modelled. The
-- operations on `double` in the configuration are a parameter (`Doubles`), and so are the conversions of
-- texts to numbers.
pub mod Base
pub mod Bits
pub mod P25
pub mod Rx
pub mod Tx
pub mod Ui
pub mod Uplink
