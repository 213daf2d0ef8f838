-- ===== src/Storage.antt =====
-- The file storage of a user, frontend/storage/storage_service.cc: one row of the store, whose
-- columns are the files and folders of the user under their paths. A file has its marker, the list
-- of its chunks and their contents; a folder has its marker and the list of what is in it.
pub mod Overview
pub mod Names
pub mod Disk
pub mod Tree
pub mod Files
pub mod Lists
pub mod Search
pub mod RoundTrip
pub mod Upload
pub mod Deletion
pub mod Requests
pub mod Handlers
pub mod Form
pub mod Moves
pub mod Moving
pub mod Renames
