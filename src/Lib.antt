-- ===== src/Lib.antt =====
-- lora-messenger exchanges short posts over LoRa radio or a LAN. A post is validated, encoded in 46
-- to 316 bytes, cut into at most 16 datagrams of 48 to 255 bytes, and broadcast; the receivers check
-- the datagrams, join them, forget duplicates, and keep the posts on a timeline.
--
-- Files, and the code that they model (paths from the root of the repository):
--   Common, Common/Tests, Common/Lists    Boolean tests, equality and lists for all parts
--   Common/Buffers                        writing into a buffer of a fixed size
--   Words/Bits, Words/Network             exclusive or, and words as bytes in network order
--   Core/Result                           src/core/result.h
--   Core/Text and below                   src/core/text.cpp: visit_utf8, validate_text
--   Core/Uuid and below                   src/core/uuid.cpp: versions, generation, text form
--   Model/Post and below                  src/model/post.cpp: PostPayload::create
--   Model/Identity                        src/model/identity.cpp: sequence numbers
--   Model/Timeline and below              src/model/timeline.cpp: insert, restore, transition
--   Protocol/Limits                       src/protocol/limits.h
--   Protocol/FrameCodec and below         src/protocol/frame_codec.cpp: encode_frame, decode_frame
--   Protocol/PostCodec and below          src/protocol/post_codec.cpp: encode_post, decode_post
--   Protocol/Fragmenter and below         src/protocol/fragmenter.cpp: fragment_post
--   Protocol/Reassembler and below        src/protocol/reassembler.cpp: class Reassembler
--   Protocol/InboundQueue and below       src/protocol/reassembler.cpp: class InboundFrameQueue
--   Protocol/DedupeWindow and below       src/protocol/dedupe_window.cpp: classify, remember
--   Application/TransmissionScheduler     src/application/transmission_scheduler.cpp: enqueue, pump,
--     and below                           their invariant, the events and the deadlines
--   Application/MessengerState and below  src/application/messenger_state.cpp: the commands
--   Adapters/Bucket, Adapters/Budget      what the next two have in common: a bucket of tokens
--   Adapters/LanPolicy and below          src/adapters/network/lan_broadcast_policy.cpp
--   Adapters/RadioPolicy and below        src/adapters/radio/japan_920_radio_policy.cpp
--   Adapters/Paced and below              pump of the scheduler with the policy of the LAN
--   ViewModel/TextEditor and below        src/viewmodel/text_editor.cpp: the line that is edited
--
-- Correspondence. A struct or a class is a record with the source's fields; an enumeration of errors
-- is a data type without its `None`, which is the success of a `Result` or the `none` of an
-- `Option`. An integer is a natural number, and the source's casts and shifts are written as
-- remainders and quotients; that a value is in the range of its C++ type is a hypothesis
-- (IsDataFrame, IsPostData, IsUuid, IsByte, IsBucket). A string or a vector is a list, a pointer
-- that may be null is an Option. A loop over a sequence is recursion on the list, a counted loop is
-- recursion on the rounds that are left; `visit_utf8` recurses on fuel, the number of bytes, and
-- each round takes at least one. Random bytes are an argument: what `IRandomBytes::fill` wrote, or
-- `none` where it returned false.
--
-- `TransmissionScheduler::pump` takes the answers of the transport and of the radio policy to this
-- call as a record of functions (Medium), and `enqueue` those of the random source, of which only the
-- number of bytes is assumed. Both policies have the interface Policy of Adapters/Budget, whose laws
-- (IsBudget) each of them fills; the bounds on a span of time are proved once from these laws.
--
-- `Reassembler::accept` is cut at its early returns into functions that call one another; a slot of the
-- table is replaced at its position where the source writes through an iterator. The bit of a fragment
-- is added to the bitmap where the source takes `|`, behind the test that the bit is clear. A command
-- of `MessengerState` takes what the random source and the clock answer, and a store with the two
-- operations of `IStateCommit`; it returns its result, the state and the store. What the store holds
-- after a refusal is left open, as the port's comment does.
--
-- The policies that pace the transmissions have one record for their five members, which have the
-- same meaning in both classes, and their configuration as a parameter, since no operation changes it.
-- The estimate of an airtime is floating-point arithmetic, and a function of the profile and the size
-- that is given.
--
-- Not modelled: sockets, SPI and GPIO, SQLite and the files of the settings, threads and the wiring of
-- the application, the screens and the widgets, logging: input and output, or calls of libraries. The
-- simulated radio bus stands for the medium in tests. Allocation is taken to succeed.
pub mod Common
pub mod Words
pub mod Core
pub mod Model
pub mod Protocol
pub mod Adapters
pub mod Application
pub mod ViewModel
