-- ===== src/Strings.antt =====
-- What the program uses of Go's strings, strconv, encoding/hex and syscall, on byte strings.
pub mod Parts
pub mod Hex
pub mod Decimal
pub mod Pointers
