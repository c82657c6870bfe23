-- ===== src/Api.antt =====
-- internal/api: the repositories and services of the program.
pub mod Http
pub mod Video
pub mod Like
pub mod Account
pub mod Social
pub mod Comment
pub mod Feed
pub mod Message
pub mod Profile
pub mod Notification
