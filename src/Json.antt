-- ===== src/Json.antt =====
-- crates/libs/lib-lualib/src/lua_json.rs: JSON and RESP texts of Lua values.
pub mod Encode
pub mod Render
mod Append
pub mod Equal
pub mod Strings
pub mod Utf8
pub mod Finished
pub mod Grammar
mod Numbers
pub mod Plain
mod Pieces
pub mod Valid
pub mod Resp
pub mod Options
pub mod Decode
mod Tests
