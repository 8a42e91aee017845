-- ===== src/Lib.antt =====
-- imap2pst: a verification library for the program that copies an IMAP mailbox into a PST file.
--
-- The program fetches messages from an IMAP server (src/imap), takes them apart as MIME
-- (src/mime), and writes folders, messages and attachments into an Outlook store (src/pst). The store
-- is built in layers: the NDB layer (src/pst/ndb.cpp) keeps blocks and B-trees in the file, the LTP
-- layer (src/pst/ltp.cpp, src/pst/heap.cpp) keeps property and table contexts in blocks, and the
-- writer on top (src/pst/pst_writer.cpp) keeps mailbox objects in those.
--
-- Modules:
--   Base             lists, words of fixed width, byte buffers, bit operations: what the parts share
--   Pst/Format       src/pst/pst_format.h and the tags of src/pst/prop_tags.h: make_nid is makeNid,
--                    poke16 is poke16, align_up is alignUp, and so on
--   Pst/Crc          src/pst/crc.cpp: crc_table is kTable, compute_crc is computeCrc;
--                    Crc/Bitwise on the table, Crc/Detects on what the checksum sees
--   Pst/Ndb/State    the members of NdbWriter (src/pst/ndb.h), the output file, errors
--   Pst/Ndb/Space    allocate, allocatePage, markAllocated, ensureAMapCount of src/pst/ndb.cpp
--   Pst/Ndb/Blocks   emitBlock, emitXBlock, assembleDataTree, writeData; the
--                    reader of data trees in Blocks/Reader is no part of the program
--   Pst/Ndb/Subnodes writeSubnodes
--   Pst/Ndb/Pages    B-tree pages and trees (buildBTree), the fixed pages (emitFixedPages)
--   Pst/Ndb/Finish   writeHeader and finish; Finish/Header, Finish/Draft and
--                    Finish/NextNids on the header's bytes
--   Pst/Heap         src/pst/heap.cpp: alloc, patch and serialize of HeapNode
--   Pst/Heap/Bth     buildBthInto of src/pst/heap.h, over any heap that has alloc; the reader in Bth/Reader is no
--                    part of the program
--   Pst/Run          state and errors: steps that may throw, and steps on a part of a state
--   Pst/Ltp/Text     utf8ToUtf16LE of src/pst/ltp.cpp; Ltp/Time is unixToFiletime
--   Pst/Ltp/Subs     SubnodeAllocator of src/pst/ltp.h
--   Pst/Ltp/Property PropertyContext: put_value is put, set_string is setString, and so on
--   Pst/Ltp/Table    TableContext; Ltp/Layout is its layout, Table/Serialize is serialize
--   Pst/NameidMap    src/pst/nameid_map.cpp: id_for_string is idForString, find_or and mint the parts that
--                    it has in common with idForNumeric; NameidMap/Streams is buildPropertyContext
--   Core/Message     src/core/message.cpp: header_blob, and path and leaf_name of FolderInfo
--   Imap/UidSet      uidSet of src/imap/imap_parse.cpp, with a reader of sequence sets
--   Imap/Strings     readAstring of src/imap/imap_parse.cpp, a branch per child: Quoted, Literal, Atom;
--                    Strings/Forward on the cursor
--   Imap/Lines       splitLines
--   Imap/Utf7        decodeModifiedUtf7
--   Imap/Flags       parseFlags
--   Imap/Folders     parseListResponse
--   Imap/Fetch       parseFetchBodies and parseFetchResponse, which have one loop over the items of a line
--   Mime/Encodings   src/mime/encodings.cpp: base64, quoted-printable, decodeBody
--   Tests            concrete runs
--
-- Numbers are native naturals, with the wrap-around of the C++ types written out. A member function of
-- NdbWriter is a function from the writer to a result and a new writer, also when it throws. The file
-- is the list of writes that the stream has taken; which writes fail is a parameter of the stream.
--
-- Fuel: find_space has 3 rounds (allocate_fuel), enough for ranges of at most 8192 bytes, the largest
-- that the program asks for; ensure_amap_count has the number of maps asked for, which is the number
-- of rounds; the loops of writeData, assembleDataTree, writeSubnodes and buildBTree have the number of
-- elements, those of uidSet and decodeQuotedPrintable the length of the input; the levels of a B-tree have
-- 9 rounds, since the source gives up at the ninth level, and so have those of the tree on a heap, whose
-- loops over a level have the number of its entries; utf16_loop, utf7_loop, split_lines and fetch_items have the
-- length of the text, and pad_blocks the number of rows.
-- On a line where a literal sends the cursor back, fetch_items may end as `unfinished`, and the
-- source may go on for ever.
-- A loop that had no fuel left would give the error `unfinished`, which is no error of the source.
--
-- A std::map of names is a list with the newest name first, and a look-up finds the one entry of a key.
--
-- The order that std::sort gives equal keys is not specified; the model keeps theirs.
--
-- Not modelled: parseInternalDate, which is a parameter of parseFetchResponse; the streaming table and the writer above
-- the LTP layer (src/pst/streaming_table.cpp, src/pst/pst_writer.cpp); MIME entities, headers and the message
-- builder (src/mime); the IMAP client, the pipeline and the command line; libcurl, iconv, and the file system beyond
-- the failure of opens and writes.
pub mod Base
pub mod Core
pub mod Imap
pub mod Mime
pub mod Pst
pub mod Tests
