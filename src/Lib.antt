-- ===== src/Lib.antt =====
-- golive: a live streaming server for RTMP and FLV.
--
-- Messages enter and leave the server as RTMP: a `ChunkUnpacker` (protocol/rtmp/pack.go) reads
-- chunks from a connection and joins them to messages, and a `ChunkPacker` cuts messages into
-- chunks and writes them. Both stand on the integer codecs of utils/byteio. A connection can also
-- deliver FLV tags (protocol/flvlive). Either way the data becomes `ExData` of the exchange
-- (exchange/expair.go), which pairs the sources and the sinks of a stream.
--
-- Parts:
-- - Common: what the models share. Common/Tests has the Boolean tests, Common/Lists lists with
--   their lengths in ℕ, Common/Bits the bit operations on bytes. Common/Go models what is used
--   of Go itself: `Result` for errors (`err`) and run-time panics (`panic`), maps as functions
--   into `Option` (Common/Go/Map), and `io.Reader` as the list of the segments that `Read` will
--   return (Common/Go/Reader).
-- - ByteIo (utils/byteio/reader.go, writer.go): Get and Put are the slice functions `U32BE`,
--   `PutU32BE` and so on, Stream the readers `ReadUint32BE` and so on; RoundTrip, VarWidth and
--   Segments are about them.
-- - Rtmp/Chunk (protocol/rtmp/chunk.go): Read and Write are the readers and writers of basic headers,
--   message headers and chunk data; BasicHeader and MessageHeader are about both together.
-- - Rtmp/Message (protocol/rtmp/message.go): messages, `MessageCollector.HandleReceiveChunk` as
--   `handle_receive_chunk`, and `ToType0Chunk` as `to_type0_chunk` with its loop `split`.
-- - Rtmp/Unpacker and Rtmp/Packer (protocol/rtmp/pack.go): `ReadChunk`, `getRtmpMessage`,
--   `SerializerChunk`, `MessageToChunk` and `WriteMessage`. The Go code changes the streams through
--   pointers; the models return the changed unpacker or packer beside the result, also with an
--   error.
-- - Rtmp/Control (protocol/rtmp/message.go, serverHandler.go): the constructors of the control
--   messages, and the handling of `Set Chunk Size`.
-- - Rtmp/Commands (protocol/rtmp/message.go), Rtmp/Status (protocol/rtmp/const.go): the
--   constructors of the messages with AMF0 values, and the states of a connection.
-- - Rtmp/Server (protocol/rtmp/serverHandler.go): the server's handler of a connection. Media has the
--   audio, video and data messages, Command the commands, Serve the loop of `Start`, `stop` and
--   `WriteData`, Start the whole of `Start`. The answers of the exchange and of the connection's `Write`
--   are the record World. Valid has the invariant, Keep, KeepCommand and Safety that it is kept;
--   Classify compares with the FLV handler, Ends and Reply are about createStream, Errors says what
--   errors leave.
-- - Rtmp/Client (protocol/rtmp/clientHandler.go, request.go, response.go): the client's handler of a
--   connection. Request has the URL and the connect command, Response what is read from the answers,
--   Handle the handler with both loops of `Start` after the handshake. The answers of the
--   connection's `Write` are a parameter. Diagram has the states as a relation; Keeps, Answers,
--   Follows and Start compare the handler with it; Accepts, Answering, Built and Publishes are about
--   the answers that the server builds, Refused about a server that refuses.
-- - Rtmp/Handshake (protocol/rtmp/handshake.go): the digests; Server and Client have the two sides, as
--   functions of what arrives to what is sent and what is left of the connection. HMAC-SHA256 is a
--   parameter, of which some theorems ask that it has 32 bytes, and the random bytes are an endless
--   sequence, a parameter too. Position and Signed are about the digest in the client's block, Buffers
--   about that block, S1 and S2, Completes about a handshake that succeeds, Refusal about what is answered at all, and
--   Meets about the two sides with each other.
-- - Rtmp/Outcome: what a method that changes its handler and returns an error comes to, for both
--   handlers of RTMP and that of FLV. Rtmp/Written says which messages `WriteMessage` writes.
-- - Rtmp/Transfer: packer and unpacker together. Whole takes one message through both, given how
--   its first chunk travels; Known and Formats give this for the four formats; Synced is the
--   relation that holds between the two sides between messages; Arrival has the timestamp with which
--   a message arrives; Deliver puts them together, and Fresh is about the first message.
-- - Flv (container/flv/flv.go, protocol/flvlive/tag.go, exchange/exchange.go): `ParseTag` and
--   `GetNextExData`, and the `ExData` they make. RoundTrip states the layout of a tag, Media what
--   the payload's first bytes mean.
-- - Flv/Live (protocol/flvlive/flvlive.go): the handler of a connection that sends FLV tags. Key is
--   about the key of its stream, Safety about what it asks of the exchange, Ends about `Start`. The
--   answers of the exchange are a parameter.
-- - Exchange (exchange/expair.go): Pool has the handlers of the goroutine `pairPad`, Work those of a
--   source's goroutine `work`. A channel is the list of the values that wait in it, and a map with
--   string keys a list of entries (Common/Go/Strings). Pairing is about the pool's two maps,
--   Order about what a sink's registration comes to, Keyed and FanOut about what a source's data
--   comes to at its sinks. `amf.ReadValue` is a parameter of Work.
-- - Amf (utils/amf/amf0.go, amftools.go, defines.go): the values and their readers and writers.
--   Objects has the Go maps, Entries, Keys and RoundTrip what is read from what was written, Total
--   that every read ends, Short what a truncated string gives. The reader of AMF3 values is a
--   parameter of the AMF0 reader and of the RTMP handlers, so that what is stated of them holds
--   for every such reader; Flv/Live and Amf/Amf3/Total use the one there is. Assert has Go's type
--   assertions on values, Values the round trip at the values of RTMP messages.
-- - Amf/Amf3 (utils/amf/amf3.go): the values of AMF3, with the names of Go's functions. U29 has the
--   integers of 29 bits; Pieces and RoundTrip are what is read from what was written, Total that
--   every read ends.
-- - Mp4 (container/mp4/box.go, moofBox.go, mdatBox.go, commonContainer.go): the header of a box, the
--   boxes of a movie fragment (Fragment), and boxes within boxes by the table of the parsers (Tree),
--   where a type of the table whose parser is not modelled is `stuck`. Layout and Header say what is
--   read of numbers and headers that were written, Trun, Track, Mdat and Tree/RoundTrip of boxes.
-- - BitReader (utils/bitreader/bitreader.go): the buffered bit reader; End is about the end of its
--   stream.
--
-- Numbers: a `uint8`, `uint16` or `uint32` is a number of ℕ, and sums and differences that can wrap
-- around are taken modulo the power of 2 of their type. The numbers in the readers' results are in
-- range because their bytes are.
--
-- Fuel: `split` has as many rounds as the payload has bytes, which is enough for every chunk size
-- but 0, where the Go loop never ends; `message_loop` has one round more than there are bytes to
-- come, and each round of the Go loop takes a byte at least. In BitReader the loop of `peek` has as
-- many rounds as bits are asked for, each of which brings a byte, and that of `skip` one more. The
-- AMF0 and AMF3 readers, which call each other, have twice as many rounds as there are bytes, and one or two
-- more: a value takes a byte at least and a property two. The loops of the commands createStream and
-- play have a round more than there are bytes, and a round takes a byte at least; the loop of
-- `Start` has a given number of messages, in the server and in the client. `Start` of Flv/Live has a
-- round more than the connection has bytes, and a tag takes eleven at least. `parse_child_box` of Mp4/Tree
-- needs as many rounds as the box has bytes.
--
-- A `float64` is the number of its 64 bits (Common/Go/Float), with the conversions to and from integers.
--
-- Not modelled: log output, contexts and the start of goroutines; the cache of groups of pictures,
-- which nothing uses; and, of the MP4 boxes, those of moov, sidx, mfra and ftyp with their codec
-- configurations, and the writer of fragmented files, which only a tool uses. A send to a full
-- channel, which makes the pool wait, is in the model made at once.
-- `WriteMessage` makes one `Write` of all its bytes, which are the result here; errors of the
-- connection on writing are left out of the packer, and in Rtmp/Server and Rtmp/Client a parameter.
pub mod Common
pub mod ByteIo
pub mod Rtmp
pub mod Amf
pub mod BitReader
pub mod Exchange
pub mod Flv
pub mod Mp4
