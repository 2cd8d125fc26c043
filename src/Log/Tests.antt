-- ===== src/Log/Tests.antt =====
-- tg_log.c: the theorems on an error line and on a dump of six bytes.
use tgserver.Base.{
  ◌≡◌, refl, true, false, [], ◌∷◌, ◌++◌, none, some, pos, leb_int, take, ok, Bytes, codes, atoi,
  memcpy, arith,
}
use tgserver.Log.{head, log_n, log_m, log_i, log_e, limit, log}
use tgserver.Log.Lines.{OneLine, log_n-OneLine}
use tgserver.Log.Dumps.{read_dump, log_m-read_dump}

abbrev monday : Bytes
monday = codes "Mon Nov 23 10:00:00 2015"

-- Without LOG_LEVEL an error is printed, and an information is not.
prints_errors :
    (log_e none monday (codes "PROCESS") (codes "accept error")
      ≡ ok (codes "Mon Nov 23 10:00:00 2015[PROCESS] [ERROR] ==>accept error" ++ 10 ∷ []))
    × (log_i none monday (codes "PROCESS") (codes "client exit") ≡ ok [])
unfolding log_e log_i log
prints_errors = (refl, refl)

shown_as_line :
    (printed : Bytes) × (log_n
        (some (codes "2"))
        monday
        (codes "PROCESS")
        (pos 2)
        (codes "client exit")
      ≡ ok printed)
    × OneLine (codes "client exit") printed
    × (leb_int (pos 2) (pos 2) ≡ false → printed ≡ [])
    × (leb_int (pos 2) (pos 2) ≡ true
        → printed
          ≡ head monday (codes "PROCESS") (pos 2) ++ (take 1023 (codes "client exit") ++ 10 ∷ []))
unfolding limit atoi
shown_as_line =
    log_n-OneLine (some (codes "2")) monday (codes "PROCESS") (codes "client exit") (pos 2) (pos 2)
      refl

dumps : log_m (18 ∷ 0 ∷ 0 ∷ 0 ∷ 15 ∷ 255 ∷ []) 6 ≡ ok (codes "12 0000000f ff" ++ 10 ∷ [])
unfolding log_m memcpy
dumps = refl

log_m-read_dump_example :
    (printed : Bytes) × (log_m (18 ∷ 0 ∷ 0 ∷ 0 ∷ 15 ∷ 255 ∷ [] ++ 7 ∷ []) 6 ≡ ok printed)
    × (read_dump printed ≡ 18 ∷ 0 ∷ 0 ∷ 0 ∷ 15 ∷ 255 ∷ [])
log_m-read_dump_example =
    log_m-read_dump (18 ∷ 0 ∷ 0 ∷ 0 ∷ 15 ∷ 255 ∷ []) (7 ∷ [])
      (omega arith, (omega arith, (omega arith, (omega arith, (omega arith, (omega arith, tt))))))
