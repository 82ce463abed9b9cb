-- ===== src/Db/Constant.antt =====
-- src/db/constant.h. The sizes are powers of two, which the masks of the code rely on.
use qstorage.Prelude.{ℕ, ◌-◌, ◌*◌}

abbrev pub block_size : ℕ
block_size = 8 * 1024

abbrev pub log_file_size : ℕ
log_file_size = 1024 * 1024 * 1024

abbrev pub cache_size : ℕ
cache_size = 64

abbrev pub buffer_size : ℕ
buffer_size = 8 * 1024 * 1024

abbrev pub buffer_size_mask : ℕ
buffer_size_mask = buffer_size - 1

abbrev pub page_size : ℕ
page_size = 4 * 1024
