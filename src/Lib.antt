-- ===== src/Lib.antt =====
-- shmark: a daemon that shares files among the devices of the members of a group. Each part below is
-- modelled as it is written; theorems about it stand in modules under the part.
--
-- Parts and files (paths from the root of the repository; core is crates/shmark-core/src):
--   Groups      core/groups.rs, the index of groups. A record with the map and the path of its file;
--               each method is an action on the record and the disk. Groups.remove is remove_group.
--   Contacts    core/contacts.rs, the contact book and the routing notes, in the same way.
--   Identity    core/identity.rs, the human's key pair and its file.
--   Device      core/device.rs, device certificates and the device's file.
--   Pairing     core/pairing.rs: the one-shot tokens; Pairing/Code the code that is read out;
--               Pairing/Protocol the host's handler and the joining side.
--   Paths       core/paths.rs, and join, file_name, parent and strip_prefix of std::path.
--   Resolve     core/resolve.rs, what the text of the clipboard stands for.
--   Settings    core/settings.rs, default_roots of resolve.rs, and the method settings_set.
--   Shares      core/shares.rs: records in the group's document; Shares/Create how they are made,
--               Shares/Fetch how their blobs are fetched.
--   Dispatch    crates/shmark-api/src/dispatch.rs over AppState of core/state.rs: the methods on
--               groups, contacts, notes, settings and recipients, and the context dump;
--               Dispatch/Devices the methods on identity, devices and pairing, Dispatch/Sharing
--               those that list groups and shares, and create, read and download a share;
--               Dispatch/Methods dispatch itself, as a table from names to methods.
--   State       core/state.rs, the start of a daemon from the files on its disk.
--   Server      crates/shmark-api/src/server.rs and protocol.rs, one connection and its answers;
--               Server/Listener the socket and the loop that accepts connections.
--   Cli/Client  crates/shmark-cli/src/client.rs, one call over the socket;
--   Cli/Daemon  crates/shmark-cli/src/commands/daemon.rs, the commands that start, run, stop and look
--               at a daemon.
--   Desktop     crates/shmark-tauri/src/main.rs, the desktop shell: the watchers of reloads and of
--               the hotkey as step relations, rpc, and the claim of the socket.
-- Base, Errors, Maps, Disk, Action and Json are what all parts share: texts as UTF-8 bytes, stable
-- sorting, anyhow results with an outcome for a panic, HashMap and BTreeMap as association lists,
-- the file system, and methods as functions on an object and the disk. Codec, Samples and the
-- modules named Examples hold concrete values and runs.
--
-- How the parts meet: a method of Dispatch runs a method of Groups, Contacts or Settings on its part
-- of the state (in_groups and its kin), under the lock that the code holds for that call. Pairing
-- issues the certificates of Device and reads the file of Groups. Settings gives Resolve its roots.
-- State boots what Dispatch serves: State/Joined follows a pairing from the host's handler through
-- devices_pair_join to the next start. Server answers lines by methods that are its parameter (Api),
-- and Cli/Client calls a Server over its lines. Dispatch/Methods/Served puts dispatch behind a Server.
--
-- Parameters: serde_json for each type, hex, ed25519, base64, postcard, the iroh node with its
-- documents and blobs, the walker of the ignore crate, the network, clocks and random bytes. Json,
-- Hex, Ed25519 and Base64 state as laws that what was encoded can be decoded, and that a signature
-- verifies; Shares.Publish.Keeps states what a document store keeps, and State.Confined that the
-- node keeps to its two directories of the disk.
--
-- The disk is a map from paths to texts. What each write does, done, refused or torn, is an
-- argument (Disk.fate). Numbers are natural numbers: the code compares 64-bit times and sizes, and
-- subtracts only where it saturates. Two loops have fuel. That of trim is the length of the text:
-- each round takes at least one byte. That of start in Cli/Daemon is 51 rounds: each sleeps for
-- 100 ms, and the deadline is 5 s away. A call over the socket that never returns has no result,
-- and neither has a command that makes it. The loop of the listener is a function of the events so
-- far.
-- Texts in errors keep their words; numbers that are printed into them are fields of the error.
--
-- Not modelled: the other commands of the command line, which print the answer of one call; windows,
-- tray and frontend of the desktop shell; core/node.rs, which calls other crates only; and the
-- dev_* methods, which forward to the test driver. Logging is left out.
pub mod Base
pub mod Errors
pub mod Maps
pub mod Disk
pub mod Action
pub mod Json
pub mod Codec
pub mod Samples
pub mod Groups
pub mod Contacts
pub mod Crypto
pub mod Identity
pub mod Device
pub mod Pairing
pub mod Paths
pub mod Resolve
pub mod Settings
pub mod Dispatch
pub mod State
pub mod Shares
pub mod Server
pub mod Cli
pub mod Desktop
