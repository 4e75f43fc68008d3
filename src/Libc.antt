-- ===== src/Libc.antt =====
-- The C library's string functions, as far as the program uses them, over C strings without their
-- terminating NUL: <string.h>, <strings.h>, <inttypes.h>. Locale "C".
mod Text
mod Sep
mod Number
pub mod TextLaws
pub mod SepLaws
pub mod NumberLaws
unfoldable pub use Text.*
unfoldable pub use Sep.*
unfoldable pub use Number.*
