-- ===== src/Lib.antt =====
-- BZRTP, the ZRTP key agreement of BelledonneCommunications: a model of its packets, algorithms, keys
-- and state machine.
--
-- Two endpoints agree on keys for SRTP over the media path. Each announces its algorithms in a Hello;
-- the agreement picks common ones; one endpoint, the initiator, sends a Commit, both exchange DHParts
-- and confirm them with encrypted Confirms. Every message but the Confirm is protected by a MAC under a
-- key that the sender's next message reveals, and these keys form a hash chain H0, H1, H2, H3.
--
-- The files and the code that they model:
--   Algo/Codes, Names, Select, Mandatory, Lengths: codes, names and lists of algorithms
--     (src/cryptoUtils.cc, include/bzrtp/bzrtp.h: bzrtp_cryptoAlgoTypeStringToInt,
--     bzrtp_cryptoAlgoTypeIntToString, bzrtp_selectCommonAlgo, bzrtp_addMandatoryCryptoTypesIfNeeded,
--     bzrtp_computeKeyAgreementPublicValueLength, bzrtp_computeCommitMessageVariableLength);
--   Algo/Agreement: bzrtp_cryptoAlgoAgreement and bzrtp_updateCryptoFunctionPointers;
--   Crc: bzrtp_CRC32 and its table (src/cryptoUtils.cc);
--   Channel, Context: the contexts (include/typedef.h);
--   Packet/Types, Names, Header: the packets (include/packetParser.h) and their headers;
--   Packet/Check, Reassembly: bzrtp_packetCheck (src/packetParser.c);
--   Packet/Parser: bzrtp_packetParser, with a child per message;
--   Packet/Builder: bzrtp_packetBuild, with the fragmentation loop;
--   Packet/Send: bzrtp_sendPacket (src/stateMachine.c);
--   Packet/Seal, Delivery, RoundTrip, Fragmentation: what these promise of each other;
--   Timer: bzrtpTimer_t (include/typedef.h), the handlers of timer events (src/stateMachine.c),
--     bzrtp_iterate and bzrtp_resetRetransmissionTimer (src/bzrtp.c); Steps and Repetition: its laws;
--   Sas: bzrtp_base32 and bzrtp_base256 (src/cryptoUtils.cc), with the words of src/pgpwords.c;
--   Secrets: the retained secrets: identifiers and the checks of a DHPart (src/stateMachine.c); Kept and
--     Matching: what both sides keep;
--   Contention: which of two endpoints that both sent a Commit yields (src/stateMachine.c);
--   Keys: bzrtp_keyDerivationFunction (src/cryptoUtils.cc), bzrtp_computeS0DHMMode,
--     bzrtp_computeS0MultiStreamMode, bzrtp_deriveKeysFromS0 and bzrtp_deriveSrtpKeysFromS0
--     (src/stateMachine.c); Mirror and Agreed: the two endpoints side by side;
--   Creation: bzrtp_createZrtpPacket (src/packetParser.c);
--   Session: the state of a channel with all that its state machine uses, the environment that it is
--     given, and the actions of the state machine;
--   Machine: the state functions (src/stateMachine.c) and bzrtp_startChannelEngine, bzrtp_iterate and
--     bzrtp_processMessage (src/bzrtp.c). Sending, Cache, SharedSecret and Repeated hold the steps,
--     Entering the first calls of the states, Greeting and Responding bzrtp_responseToHelloMessage and
--     bzrtp_turnIntoResponder, Discovery, Commitment, Exchange, Confirmation and Clear the events,
--     Destruction the end of the encryption, Driving the calls of a user; Keeping, Kept, Staying,
--     Entered, Answered, Edges, Graph, Clearing, Progress, Driven, Cleared, UserEvents, Ticks, Runs,
--     Forged and Secured: their laws;
--   Calls: bzrtp_getSelfHelloHash, bzrtp_setPeerHelloHash, bzrtp_setAuxiliarySharedSecret,
--     bzrtp_SASVerified and bzrtp_resetSASVerified (src/bzrtp.c); Running: any sequence of these calls,
--     of the start, ticks, received datagrams, of bzrtp_resetRetransmissionTimer and of the calls for
--     GoClear; Signalling, Restarted and Kept: their laws;
--   Tests: the properties at concrete data.
--
-- How the code is read. A buffer is a list of bytes as long as the memory it stands for; a read or a
-- write outside of it, or through NULL, is the outcome `fault`. Error codes are values. A buffer of
-- malloc holds `junk` until it is written. Words of w bits wrap by `% 2 ^ w`. Hash, HMAC and cipher of
-- bctoolbox are the record Crypto; CryptoLaws says that outputs have the length that was asked for and
-- that decryption undoes encryption. The key and cipher text sizes of the post quantum engine are
-- KemSizes. The fragmentation loop runs on the length of the message as fuel: every round takes a byte
-- at least.
--
-- An action of the state machine is a function from a session to a session and a result: what it changed
-- before an error stays changed. A callback is in the environment, what it is given is in the outputs of
-- the session; random bytes are a function of the number of the draw. The key agreements of bctoolbox
-- and of its post quantum module are the record KeyExchange. A session is one channel with its context.
--
-- GoClear is modelled, as src/CMakeLists.txt turns its build option GOCLEAR_ENABLED on.
--
-- Not modelled: the channel status, status messages and logs, the incorrect SAS, the export of keys and the identifier zuid (src/stateMachine.c, src/bzrtp.c), the table of
-- channels and the other calls of src/bzrtp.c, the ZID cache (an SQLite database) and the wrappers of the
-- post quantum engine.
pub mod Common
pub mod Algo
pub mod Packet
pub mod Channel
pub mod Context
pub mod Crc
pub mod Timer
pub mod Sas
pub mod Secrets
pub mod Session
pub mod Keys
pub mod Contention
pub mod Creation
pub mod Machine
pub mod Calls
mod Tests
