-- ===== src/Lib.antt =====
-- Verification of remoteFileSystem: a file system that is mounted by a client and stored on a
-- server, which the client asks over HTTP.
--
-- The parts and how they interact. A FUSE adapter calls the methods of `FileSystem`
-- (client/src/fs_model.rs). These keep a table of open handles, a write buffer that joins adjacent
-- writes into one request, a read buffer with what was read ahead, and a cache of items by path
-- (client/src/cache.rs), in which a file is a map of pages (client/src/fs_model/file.rs). What none of
-- these can answer is asked of the server through the trait `RemoteStorage` (client/src/network.rs).
-- On the server each request passes the check of its token (server/src/middleware.rs), then its
-- handler (server/src/routes.rs), which asks whether the user may (`is_allowed`), works on a directory
-- of the disk (server/src/storage.rs) and on the tables of users, revoked tokens and extended
-- attributes (server/src/db.rs).
--
-- The files.
--   Prelude and its children: shared names, Boolean tests, lists, usize, and the association list
--     that stands for a HashMap.
--   Paths: `std::path` as sequences of components, parsing, UTF-8.
--   Action: methods that change a state and may fail, as state passing, for any type of errors.
--   Client/Attributes, Client/Errors: client/src/fs_model/attributes.rs, client/src/error.rs.
--     Attributes/Modes has the numbers for types, permissions and open flags over libc's constants.
--   Client/Action: methods that change `self` and may fail, as state passing with an outcome.
--   Client/WriteBuffer, Client/ReadBuffer: client/src/rw_buffer.rs. `write`, `fill` and `read` return
--     the buffer after the call and the result. WriteBuffer/Stream and ReadBuffer/Window have the laws.
--   Client/Pages: `FilePage` and `File` of client/src/fs_model/file.rs. Pages/Bytes says which byte a
--     file holds at an offset; Pages/Read, Page, Write, RoundTrip and Gap relate the code to it.
--   Client/Items: client/src/fs_model/directory.rs, sym_link.rs, the merges, and `CacheItem`.
--   Client/Cache: client/src/cache.rs, with `Cache::put_new`, `Cache::get` and so on as put_new, get.
--     Cache/Victim, Bounds and Lookup have the laws.
--   Client/Network: the trait `RemoteStorage` as a record of functions on a state of the world.
--   Client/Model: `FileSystem` of client/src/fs_model.rs. Model/Data has the methods on bytes, handles
--     and attributes, Model/Names those on names, Model/Listing `readdir`. Model/Uploads, Session,
--     Failures, Handles and ReadLength have the laws.
--   Client/Remote: client/src/network/client.rs and middleware.rs, a `RemoteStorage` over what carries a
--     request to the server; Remote/Decoding has `handle_response` and what JSON carries.
--   Client/Fuse: client/src/fuse/unix.rs, the error numbers and the handlers: Fuse/Files for bytes,
--     handles and attributes, Fuse/Names for names and extended attributes, Fuse/Directories.
--     Fuse/ReadLoop and its children Fronts, Buffer and Content have the laws of reading.
--   Client/Windows: client/src/fuse/windows.rs: paths, statuses and infos; Windows/Times, Windows/Reparse
--     for the targets of links, Windows/Files and Creation for files, Windows/Entries for
--     directories. Files/Memory, Files/Closing, Creation/Options, Entries/Lookup, Order and Pages have
--     the laws.
--   Util, Client/Config: client/src/util.rs, config.rs and the files of config/. Config/Loading and
--     Logging/Targets have the laws.
--   Client/Gui: client/src/gui/logic.rs, Gui/Edits for the changes of the configuration, Gui/Session for
--     logins and mounts. Edits/Limits, Edits/Restoring and Session/Tokens have the laws.
--   Client/Startup: client/src/lib.rs and client/src/mount/unix.rs: the login at the terminal and the
--     life of a mount. Startup/Attempts and Startup/Ending have the laws.
--   Client/Commands: client/src/commands.rs. Commands/Generating has the laws.
--   Server/Attributes, Server/Errors: server/src/attributes.rs, server/src/error.rs.
--     Attributes/Packing has the laws, Attributes/Records the records and the times.
--   Server/Disk: the calls of the operating system as a record of functions on a state of the disk;
--     Disk/Laws says what their documentation promises, as far as theorems rely on it.
--   Server/Nodes: server/src/nodes.rs.
--   Server/Storage: server/src/storage.rs. Storage has the paths and `is_allowed`, Storage/Files the
--     operations, Storage/Listing `find`, Storage/Owners `set_attributes`. Storage/Access,
--     Confinement, Files/Exchange, Files/RoundTrip and Owners/Denials have the laws.
--   Server/Requests: the requests, answers and statuses of server/src/routes.rs and models.rs.
--   Server/Routes: the handlers of server/src/routes.rs (Routes/Handlers) and server/src/middleware.rs
--     (Routes/Session). Routes/Guards and Session/Logout have the laws.
--   Server/Database: server/src/db.rs and the rows of server/src/models.rs. Tables are lists of rows,
--     and each method is its SQL statements on them. Database/Xattributes, Users, Tokens and
--     Login have the methods, Commands the user commands of server/src/commands.rs with their law;
--     Xattributes/Laws, Users/Edits, Users/Creation and Tokens/Revocation have the other laws.
--   System/Link, System/EndToEnd, System/Uploads: the server as what carries the client's requests, and
--     the laws of a read and of a flush through the whole system.
--   Examples: the theorems at concrete inputs, and tests.
--
-- How the code is read. A `usize` is a natural number below 2 ^ 64, and an addition that the code
-- does not bound is taken modulo 2 ^ 64. An index out of range, a division by zero and a
-- `copy_from_slice` of two lengths are panics: `none`, or `panicked` in an action. Instants are
-- milliseconds and an argument. A method of `FileSystem` runs to its end before the next one starts.
--
-- Fuel. `write_loop` has one more than the length of the bytes, since each round takes at least one
-- byte; `read_loop` one more than the size asked for, since each round that goes on has read at least
-- one byte; the loop of the FUSE adapter's `read` the size asked for and one, for the same reason;
-- `parents_from` the number of components, since a parent has fewer. The theorems on these
-- functions show that it is enough: they give a result, not only a property of one.
--
-- Not modelled: the panics of a page or a read of more than `isize::MAX` bytes and of a time to live
-- that no clock reaches, which are limits of memory and time; the HTTP library with its retries, the matching of URLs and the JSON of bodies; the
-- daemon, the mounting on Windows, the merging of configuration sources, the listing of variables,
-- logging and the drawing of the window, which are glue over libraries; interleavings of two methods
-- of `FileSystem` or of two requests on the server.
mod Prelude
pub mod Paths
pub mod Util
pub mod Action
pub mod Client
pub mod Server
pub mod System
mod Examples
