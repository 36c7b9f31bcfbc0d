-- ===== src/Text.antt =====
-- Rust strings as lists of Unicode scalar values, and what the source uses of `str`.
mod Defs
pub mod Trim
unfoldable pub use Defs.{
  Str, codes, utf8_width, str_len, is_whitespace, trim_start, trim, starts_with,
}
