-- ===== src/Table.antt =====
-- The open-addressing hash tables of runtimes/0.3/common/api.c, once for both key types.
-- `Cells` is the probing loop, `Layer` one array of cells, `Layered` the chain of arrays that
-- growth leaves behind.
pub mod Kind
pub mod Cells
pub mod Layer
pub mod Layered
