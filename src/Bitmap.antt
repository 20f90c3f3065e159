-- ===== src/Bitmap.antt =====
-- src/bitmap.c and include/qof/bitmap.h: a circular bitmap of 64-bit words, and the two functions on
-- single words. The tables are in Bitmap/Tables.
pub mod Tables
pub mod Words
pub mod Range
pub mod Masks
