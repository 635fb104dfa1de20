-- ===== src/Lib.antt =====
-- Quicksend: the web client's pairing, file transfer, encryption and encodings.
--
-- Two paired browsers exchange files through a relay that sees only ciphertext. The sender cuts a
-- file into chunks, encrypts each under a key of its own (web/crypto.js), frames it and sends it
-- on a WebSocket (web/transfer.js, sendFile); the receiver takes the frames off its socket one
-- after the other, decrypts them, hands them to callbacks and acknowledges them (web/transfer.js,
-- attachReceiver). The sessions that the two share are set up, kept and ended by web/pairing.js.
-- Ids, keys and metadata travel as hexadecimal (web/hex.js) inside JSON envelopes
-- (web/ws-client.js) and as base64url in links (web/base64url.js).
--
-- Base and its children hold what the parts share: tests on numbers, lists, integers, byte arrays,
-- results. `none` and `throw` are exceptions; text is a list of UTF-16 code units.
--
--   Hex           web/hex.js           toHex is to_hex, fromHex is from_hex
--   Base64Url     web/base64url.js     encode, decode
--   Crypto        web/crypto.js        one definition for each function, in its order
--   Frame         web/transfer.js      buildChunkFrame, parseChunkFrame
--   Wire          web/ws-client.js     envelopes, parseEnvelope
--   Sender        web/transfer.js      sendFile, with its state and events in Sender/State
--   Receiver      web/transfer.js      attachReceiver, with its state and events in Receiver/State;
--                                      Receiver/Protocol is the abstract view of its calls,
--                                      Receiver/Authenticity follows whose chunks it hands on
--   Transfer      web/transfer.js      the messages of a sender taken by a receiver; both ends in
--                                      conversation in Transfer/Conversation, a relay that
--                                      meddles in Transfer/Authenticity
--   Pairing       web/pairing.js       the screens, sockets and sessions as a state machine: its data
--                                      in Pairing/State, setState and render in Pairing/Screens, the
--                                      flows in Pairing/Flows, the paired session in
--                                      Pairing/Session, the buttons in Pairing/Buttons, every event
--                                      as a step in Pairing/Steps, the states that it can come to in
--                                      Pairing/Reach, the keys of the error texts in
--                                      Pairing/Messages, the link in Pairing/Link, the code as it is
--                                      shown, typed and shared in Pairing/Code
--   Url           web/pairing.js       what its link uses of URL, URLSearchParams and String.trim
--   Pake          web/pake.js          the confirmation tags, and runPakeExchange of web/pairing.js;
--                                      waitFor and ensureLoaded in Pake/Loading
--   QrEncode      web/qr-encode.js     renderQR as the rectangles that it draws
--   QrScan        web/qr-scan.js       startScanning
--   FileSink      web/file-writer.js   the sinks of createFileSink
--   SenderUi      web/transfer-ui.js   sendFiles and handlePicked of renderSenderTransfer
--   FileName      web/transfer-ui.js   dedupeFilename
--   FileSize      web/transfer-ui.js   formatBytes
--   ReceiverUi    web/transfer-ui.js   the callbacks of renderReceiverTransfer and their rows
--   Settings      web/theme.js, web/i18n.js and detectLocale of web/strings.js
--   Strings       web/strings.js       the tables of texts, with t and applyTranslations of web/i18n.js
--   Tests         the toy instances and the runs on concrete inputs
--
-- Asynchronous code is cut at its awaits. The state of a call is a record with the place where it
-- is suspended, an event is a message, a close, a cancellation or the settling of the awaited
-- promise, and a step gives the next state and the calls that leave the component. `run` takes any
-- list of events, so every interleaving of the socket with the promises is a run; an event that
-- cannot happen in a state changes nothing. All recursion is structural; the loop of
-- dedupeFilename has as much fuel as there are used names (enough by FileName/Fresh), and decimal
-- as much as the number. The rounds of converse in Transfer/Conversation are counted, two for each
-- chunk and two more, which Transfer/Conversation/Completion shows to be enough.
--
-- The messages of a sender are given to the receiver and its calls to the screen in the order in
-- which they were made, each handled to its end before the next (handle_each in Transfer, apply in
-- ReceiverUi); the receiver alone is modelled over every other order too. In Transfer/Conversation
-- the answers go back to the sender as well, before the next of its promises settles.
--
-- Parameters: the browser's crypto.subtle (Crypto/Platform, with the laws that the code relies
-- on), the JSON text of a file's metadata (MetadataCodec in Receiver/State), the percent-encoding of
-- links (UrlCodec in Url), the WebAssembly PAKE (PakeModule in Pake), the vendored QR generator (an
-- argument of render_qr) and reader (its answers come with the events of QrScan), and the answers of
-- the file pickers (Answers in FileSink). The file id that sendFile draws is an argument of the call.
-- JSON envelopes are data, with a missing field as `none` and ackedUpTo, where it is there, a natural
-- number. A lookup in an object literal finds the inherited keys of Base/Objects too.
--
-- Not modelled: the vendored QR libraries, the relay (server/) and the WebAssembly module
-- (wasm/pake), which are not code of the web client; the elements that the screens of web/pairing.js
-- and web/transfer-ui.js draw, with their progress bars; the folder picker of web/file-writer.js.
-- What a screen of Pairing is told by a link comes with its event, as parse_pairing_text gives it.
pub mod Base
pub mod Base64Url
pub mod Frame
pub mod Wire
pub mod Receiver
pub mod Sender
pub mod Settings
pub mod Strings
pub mod Transfer
pub mod Hex
pub mod QrScan
pub mod QrEncode
pub mod Url
pub mod Crypto
pub mod FileName
pub mod FileSize
pub mod FileSink
pub mod ReceiverUi
pub mod SenderUi
pub mod Pake
pub mod Pairing
pub mod Tests
