-- ===== src/Demo1/Tests.antt =====
-- plugins/demo1/demo1.cpp: the answer where the file is mapped at the same address again, and at
-- another.
use tgserver.Base.{
  write_at, ◌≡◌, refl, [], ◌++◌, none, some, ◌==◌, if◌then◌else◌, pos, ok, fault, le_bytes,
  strcmp_eq,
}
use tgserver.Context.{Client, init_client}
use tgserver.Response.{reply}
use tgserver.Demo.Points.{points_from}
use tgserver.Demo1.{do_request}
use tgserver.Demo1.Answers.{ten_points, page_of, all_of_demo1, do_request-overread}

abbrev near : Client
near = record init_client { sockfd = pos 4 }

do_request-overread_example :
    (do_request (some 4096) (ten_points 4096 none) (all_of_demo1 ++ []) (page_of []) ≡ (
      if 4096 == 4096
      then ok (some (le_bytes 88 ++ (le_bytes 10 ++ points_from 0 10)), page_of [])
      else fault))
    × (reply near (some (le_bytes 88 ++ (le_bytes 10 ++ points_from 0 10))) ≡ fault)
    × (do_request none (ten_points 4096 none) (all_of_demo1 ++ []) (page_of [])
        ≡ ok (none, page_of []))
do_request-overread_example = do_request-overread near 4096 4096 none [] []

other_address : do_request (some 8192) (ten_points 4096 none) all_of_demo1 (page_of []) ≡ fault
unfolding do_request strcmp_eq write_at
other_address = refl
