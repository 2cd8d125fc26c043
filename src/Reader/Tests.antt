-- ===== src/Reader/Tests.antt =====
-- tg_process_reader.c: the theorems on concrete streams, and runs of the functions.
use tgserver.Base.{
  ◌≡◌, refl, List, [], ◌∷◌, ◌++◌, none, some, pos, ok, fault, Bytes, arith, digits_value,
}
use tgserver.Context.{Client}
use tgserver.Reader.{
  chunk, failed, requests, quits, read_fd, read_data_from_cli, read_data_from_main_process,
}
use tgserver.Reader.Inputs.{chunks}
use tgserver.Reader.Frames.{frame, HandsOver, read_data_from_cli-HandsOver}
use tgserver.Reader.Outcomes.{read_data_from_cli-loses, read_data_from_cli-quits}
use tgserver.Reader.Total.{Replies, read_data_from_cli-Replies}
use tgserver.Reader.Messages.{read_data_from_main_process-digits}

abbrev connected : Client
connected = record {
  pid = 0;
  sockfd = pos 4;
  read_pipe = pos 8;
  write_pipe = pos 9;
  client_ip = none;
  port = 52000;
}

-- A request of five bytes that arrives in three chunks, the last with a byte of the next request.
abbrev pieces : List Bytes
pieces = (5 ∷ 0 ∷ 0 ∷ 0 ∷ 11 ∷ []) ∷ (22 ∷ 33 ∷ []) ∷ (44 ∷ 55 ∷ 9 ∷ []) ∷ []

three_chunks :
    read_data_from_cli 4 7 (some connected) (chunks pieces)
    ≡ ok (requests (11 ∷ 22 ∷ 33 ∷ 44 ∷ 55 ∷ 0 ∷ []) (chunk (9 ∷ []) ∷ []))
unfolding read_data_from_cli read_fd
three_chunks = refl

too_little_fuel : read_data_from_cli 2 7 (some connected) (chunks pieces) ≡ fault
unfolding read_data_from_cli read_fd
too_little_fuel = refl

read_data_from_cli-HandsOver_example :
    HandsOver
      (11 ∷ 22 ∷ 33 ∷ 44 ∷ 55 ∷ [])
      (9 ∷ [])
      (read_data_from_cli 4 7 (some connected) (chunks pieces))
read_data_from_cli-HandsOver_example =
    read_data_from_cli-HandsOver 4 7 4 connected (11 ∷ 22 ∷ 33 ∷ 44 ∷ 55 ∷ []) (9 ∷ [])
      (5 ∷ 0 ∷ 0 ∷ 0 ∷ 11 ∷ []) ((22 ∷ 33 ∷ []) ∷ (44 ∷ 55 ∷ 9 ∷ []) ∷ []) refl
      (omega arith, (omega arith, (omega arith, tt))) refl (omega arith) (omega arith) (omega arith)
      (omega arith) (omega arith)

read_data_from_cli-Replies_example :
    Replies
      (some connected)
      (chunk (5 ∷ 0 ∷ 0 ∷ 0 ∷ 11 ∷ []) ∷ failed ∷ [])
      (read_data_from_cli 4 7 (some connected) (chunk (5 ∷ 0 ∷ 0 ∷ 0 ∷ 11 ∷ []) ∷ failed ∷ []))
read_data_from_cli-Replies_example =
    read_data_from_cli-Replies 4 7 (some connected) (chunk (5 ∷ 0 ∷ 0 ∷ 0 ∷ 11 ∷ []) ∷ failed ∷ [])
      (omega arith)

-- Two requests in one read: the second is lost.
read_data_from_cli-loses_example :
    read_data_from_cli 1 7 (some connected) (chunk (frame (11 ∷ 22 ∷ []) ++ frame (33 ∷ [])) ∷ [])
    ≡ ok (requests (11 ∷ 22 ∷ 7 ∷ []) [])
read_data_from_cli-loses_example =
    read_data_from_cli-loses 1 7 4 connected (11 ∷ 22 ∷ []) (frame (33 ∷ [])) [] refl (omega arith)
      (omega arith)

read_data_from_cli-quits_example :
    read_data_from_cli 3 7 (some connected) (chunks ((3 ∷ 0 ∷ 0 ∷ 0 ∷ []) ∷ (11 ∷ []) ∷ []))
    ≡ ok (quits [])
read_data_from_cli-quits_example =
    read_data_from_cli-quits 3 7 4 connected (11 ∷ 22 ∷ 33 ∷ []) (22 ∷ 33 ∷ []) (3 ∷ 0 ∷ 0 ∷ 0 ∷ [])
      ((11 ∷ []) ∷ []) refl (omega arith, (omega arith, tt)) refl (omega arith) (omega arith)
      (omega arith) (omega arith)

-- The message "tg://1003/" with the digit 7 on the stack behind the array gives 10037.
read_data_from_main_process-digits_example :
    read_data_from_main_process
      (b'7' ∷ 0 ∷ [])
      (some connected)
      (chunk (b't' ∷ b'g' ∷ b':' ∷ b'/' ∷ b'/' ∷ b'1' ∷ b'0' ∷ b'0' ∷ b'3' ∷ b'/' ∷ []) ∷ [])
    ≡ ok (record { code = pos 1; type_id = some (pos 10037); payload = none; rest = [] })
unfolding digits_value
read_data_from_main_process-digits_example =
    read_data_from_main_process-digits b'1' b'0' b'0' b'3' refl refl refl refl 8 10037 connected
      (b'/' ∷ []) (b'7' ∷ 0 ∷ []) [] refl (omega arith) refl
