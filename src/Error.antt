-- ===== src/Error.antt =====
-- src/error.rs: the errors of the whole library.
use webmetro.Base.{ℕ, List}
use webmetro.Io.{IoError}
use webmetro.Ebml.Varint.{EbmlError}

-- The errors of the crates `http`, `hyper` and `warp` are only passed on: they are kept as numbers.
-- A message is its bytes.
pub data WebmetroError : Type 0 where
  resources_exceeded : WebmetroError
  ebml_error : EbmlError → WebmetroError
  http_error hyper_error warp_error : ℕ → WebmetroError
  io_error : IoError → WebmetroError
  application_error : List ℕ → WebmetroError
