-- ===== src/Http.antt =====
-- src/http.rs: what the HTTP server makes of a playlist.
pub mod Playlist
