-- ===== src/Lib.antt =====
-- A model of wim, a Go package that reads and writes Windows Imaging (WIM) files, and of its LZX codec.
--
-- The program. A WIM file has a 208-byte header, resources (an image's metadata, files, an XML text)
-- stored raw or in LZX-compressed chunks, and a blob table that lists the resources. A Reader
-- (reader.go) reads the header and the table through an io.ReaderAt, resource.go reads resources by
-- their chunk tables and calls lzx.Decompress (lzx/decode.go) for each coded chunk, dentry.go parses an
-- image's metadata resource into a tree of dentries, and fs.go presents the tree as an io/fs file
-- system. The writing side (writer.go, capture.go, metadata.go, lzx/encode.go, lzx/huffman.go) captures
-- a tree, compresses its streams and writes the same format.
--
-- The model, by file:
--   Base         Booleans, lists, little-endian words and bit operations over the native numbers, and
--                the outcomes of a Go call: a value, an error, a run-time panic, or (in the model alone) a
--                loop that used up its fuel.
--   Lzx.Consts   lzx/lzx.go: the constants and tables.
--   Lzx.BitReader  lzx/decode.go: bitReader, with its 32-bit accumulator; a value out and a new state.
--   Lzx.BitWriter  lzx/encode.go: bitWriter.
--   Lzx.Stream   Numbers as bits, which the reader and the writer of bits have in common; with
--                Lzx.BitReader.Prefix and Lzx.BitWriter.Suffix it says what each holds.
--   Lzx.Huffman  lzx/decode.go: huffman.build and bitReader.sym.
--   Lzx.Codes    lzx/huffman.go: canonicalCodes.
--   Lzx.Tree     lzx/decode.go: bitReader.readTree.
--   Lzx.Decode   lzx/decode.go: decoder, its block readers, and Decompress.
--   Lzx.E8       decodeE8 of lzx/decode.go and encodeE8 of lzx/encode.go.
--   Lzx.Tokens   matchToken and positionSlot of lzx/encode.go.
--   Lzx.Compress  lzx/encode.go: Compress and the header that emitBlock writes. What it codes behind that
--                header is a parameter (Coder): the numbers and widths of the fields.
--   Lzx.Frequencies  lzx/encode.go: countFrequencies, alignedPays.
--   Wim.ResHdr   wim.go: readResHdr, writeResHdr, align8.
--   Wim.Resource resource.go: plausibleSize, readChunkTable, readResourceAt and its two halves,
--                readResource. The io.ReaderAt is a function parameter.
--   Wim.Names    Go strings as lists of bytes, their order, and UTF-16 to UTF-8.
--   Wim.Dentry   dentry.go: parseMetadata and everything under it.
--   Wim.Info     image.go: ImageInfo and what it holds.
--   Wim.Header   reader.go: readHeader, readBlobTable, Image, Boot.
--   Wim.Open     reader.go: decodeXMLText, readXML and Open. The parser of encoding/xml is a parameter.
--   Wim.Encode   metadata.go: encodeBlobTable, encodeSecurityTable.
--   Wim.Parts    Buffers that are filled by writes one behind the other.
--   Wim.Chunks   writer.go: compressResource, encodeChunks, encodeChunk.
--   Wim.Writer   writer.go: the Writer; Wim.Writer.Header: header and guid; Wim.Writer.Steps: start,
--                writeStored, writeResource, addImage (write_image), AddImage (add_image), Close;
--                Wim.Writer.Run: calls one after the other.
--   Wim.Fs       fs.go: lookup, findChild, ReadDir of an open directory; Wim.Fs.File: Read and ReadAt of
--                an open file.
-- The Tests modules hold concrete inputs.
--
-- State is passed explicitly: a method that changes its receiver returns it. A buffer that a function
-- fills is returned. Words of a fixed width keep their wrap-around (`u8` to `u64`, `shl32`); `int` has 64
-- bits, and align8 works on them. An offset that the code has just checked against a length in memory is a plain number.
--
-- The Writer's calls return an outcome and the Writer that they leave, also when they fail. The
-- destination is a record of functions (Calls) with a state of its own, and so are the blocks that the
-- compressor codes, SHA-1 and buildXML; what `capture`, `encodeMetadata`, the context and the files give are arguments of the
-- calls. Offsets are kept modulo 2^64, as uint64(w.pos) is.
--
-- Fuel. The loop of Decompress has as many rounds as the output has bytes, since a round produces one
-- at least; readCompressed as many as the block has bytes; readTree as many as there are lengths; a
-- dentry list as many as the metadata has bytes and one more, since a dentry takes 102 at least; the
-- nesting of lists is the source's own limit of 64; lookup has as many rounds as the path has bytes;
-- sort.Search as many as there are children. Running out of fuel is the outcome `hang`, which the
-- theorems exclude; in the search it leaves the lower bound, and the theorem on findChild shows that
-- it has enough.
--
-- Not modelled: the match finder, the code lengths, and the trees and tokens of a block as they are
-- written (so no theorem says that a chunk that was coded decodes to itself; what is shown is that
-- the reader gets the bytes that Compress returned), the capture
-- and the encoding of a tree, the workers of encodeChunks (each chunk is encoded by itself), the XML text that is written, the locks (every operation under
-- them runs as a whole), the memos of images and trees, the memo of chunk tables (it is keyed by the
-- resource's offset, so the model is that of resources whose offsets differ), the scratch buffers of
-- chunkCache, and the texts of errors. The standard library's io.ReaderAt and utf8.ValidString are parameters.
pub mod Base
pub mod Lzx
pub mod Wim
