-- ===== src/App.antt =====
-- The file server: application/http_upload.cc.
pub mod Json
pub mod World
pub mod Number
pub mod Reply
pub mod Session
pub mod Text
pub mod Account
pub mod Delete
pub mod Permission
pub mod Range
pub mod Download
pub mod Share
pub mod ShareAccess
pub mod Upload
pub mod FileUpload
pub mod ListFiles
pub mod Guard
pub mod Routes
mod Examples
