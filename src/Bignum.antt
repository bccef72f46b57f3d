-- ===== src/Bignum.antt =====
-- Extended integers, mindy/interp/num.c ("Extended Integer Support"): a module per routine.
pub mod Digits
pub mod Unsigned
pub mod Normal
pub mod Sum
pub mod Compare
pub mod Make
pub mod Product
pub mod DigitDivision
pub mod Print
pub mod Logic
