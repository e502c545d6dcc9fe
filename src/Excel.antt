-- ===== src/Excel.antt =====
-- gobackend/excelcmp: the comparison of two tables by their keys.
pub mod Normalize
pub mod StrMap
pub mod KeyedRows
pub mod Sorting
pub mod Columns
pub mod Artifacts
pub mod Mask
pub mod Fingerprint
pub mod Diff
pub mod KeyedSheet
pub mod SheetName
pub mod Headers
pub mod KeyGuess
pub mod Reading
pub mod Export
