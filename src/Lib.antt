-- ===== src/Lib.antt =====
-- Verification of the Rust daemons of the Jellyfin Suite: frame-forge, which decodes, caches, animates
-- and stitches frames for the export dialog, and seek-preview, which decodes frames for the seek
-- bar. Both listen on a Unix socket for the C# plugin, decode with ffmpeg, and keep the pictures in
-- memory and in a disk cache that crates/jfs-common shares between them.
--
-- - Wire: crates/frame-forge/src/protocol.rs over lists of bytes. A reader is a function on the
--   stream's bytes; `read_x` is the Rust reader, `write_x` of Wire/Requests is what
--   packages/JellyfinSuite.Plugin/Services/FrameExportService.cs sends, Wire/Responses has the
--   Rust writers and what the client makes of them. A float is its bits.
-- - DiskCache: crates/jfs-common/src/disk_cache.rs. The state is the index and the files below the
--   cache's folder (DiskCache/State, DiskCache/Files); each step that the code does under one lock
--   is a function (DiskCache/Access, DiskCache/Cleanup), and DiskCache/Steps interleaves them.
--   DiskCache/Text has the texts of positions and file names, DiskCache/Save the text of index.txt,
--   DiskCache/Start the start. Texts are lists of code points. `System` is what the operating
--   system answers: times, and which files and folders can be read, written and removed.
-- - Server: crates/frame-forge/src/server.rs. Server/Daemon has the single-frame and prefetch
--   handlers and the worker's turn, Server/Prefetch the queue as a step relation with single frames,
--   ranges and workers, Server/PrefetchRange the two loops of a range request, Server/FrameIndex the
--   manager of the files' indices, Server/Hardware the choice of a device, Server/Connection the
--   message loop over the readers of Server/Bodies, Server/Frames the index of a frame from its time.
-- - Server/Stream: the streams of the same file. Batches has the batches of the index stream, Demux
--   the background task `queue_b_demux` and the events for a finished index, Bridge the task that
--   hands the published events to one client, as a step relation with the publisher's pushes and
--   finish; Window, Parts and Prefetch take a part of a finished index, Fallback estimates it while
--   there is none; Range is `handle_prefetch_range_stream` from its list of frames to its last
--   event, Sessions its permit and cancel flag, by the steps between which other requests may
--   come.
-- - Decoder/Index: the walk over the packets, `demux_frames`, of crates/jfs-common/src/decoder.rs.
-- - Forge: the tiles of crates/frame-forge/src/upscale.rs and the border crop of quality.rs.
-- - Poster: crates/poster-gen/src. Layout has the grid of image_stitcher.rs, Sampling the intervals
--   of sampling.rs, MediaInfo the tables of media_info.rs.
-- - Seek: crates/seek-preview/src/protocol.rs and server.rs. Seek/Session handles a request in one go,
--   Seek/Steps by the steps between which requests of other connections may come.
-- - Calendar: the dates of crates/frame-forge/src/generation_log.rs.
-- - Prelude: shared tests, lists, integers and association lists. Tests: the theorems at concrete
--   inputs.
--
-- Machine integers keep their wrap-around where the code can reach it (wrap_i64, % 2 ^ 64). The loop
-- over the years has a turn for each day, the digits of a number 20 turns, the message loop a turn
-- for each byte of the stream, the tile origins a turn for each pixel of the length, and the cutting
-- into batches a turn for each element: each is shown to be enough. The crate `lru`, ffmpeg's
-- decoding, demuxing and parsing, the rating of pictures, the drivers' loads, serde_json's printers
-- and the binary search `partition_point` are parameters, and so are times that the code computes in
-- floating point. Of `lru` only peek, put and clear are used, by the laws in Server/Lru; of
-- `partition_point` what it documents for a divided list. The times of the poster's intervals are
-- integers, as multiples of the smallest float, since they are only compared. Item ids and paths are
-- compared and passed on by the daemons; an item id names one folder of the cache.
--
-- Not modelled: the stream of single prefetches and the animate, stitch and upscale jobs behind their
-- messages, image processing and inference, ffmpeg's calls, logging, the poster's drawing and
-- command line, the C# plugins beyond their byte layouts, and the web client.
pub mod Prelude
pub mod Wire
pub mod DiskCache
pub mod Decoder
pub mod Server
pub mod Seek
pub mod Forge
pub mod Poster
pub mod Calendar
pub mod Tests
