-- ===== src/Demo2.antt =====
-- plugins/demo2/demo2.cpp: the plugin whose functions do nothing. A pointer of `none` is NULL.
pub mod Silence
mod Tests
use tgserver.Base.{ℕ, Option, none, ℤ, pos, Run, ok, Bytes}

unfoldable pub create : Bytes → Option ℕ
create parameters = none

unfoldable pub init : ℤ
init = pos 0

unfoldable pub do_request : Bytes → Run (Option Bytes)
do_request memory = ok none

unfoldable pub release : ℤ
release = pos 0
