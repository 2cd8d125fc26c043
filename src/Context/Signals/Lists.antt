-- ===== src/Context/Signals/Lists.antt =====
-- tg_context.c: who gets a message of sendSignalToAllClients, and what getCurrentClientsInfo
-- prints.
use tgserver.Base.{
  sizes, ℕ, zero, suc, ◌+◌, ◌*◌, ◌/◌, ◌≤◌, ◌<◌, ◌≡◌, refl, inl, inr, Bool, not, ◌||◌, List, [], ◌∷◌,
  ◌++◌, none, some, ltb, if◌then◌else◌, length, length-append, ℤ, is_nonneg, ok, Bytes, Bool-cases,
  le→ltb, lt→ltb, arith,
}
use tgserver.Context.{Client, Context, Slots, Action, write_fd}
use tgserver.Context.Loops.{registered}
use tgserver.Context.Table.{with_table}
use tgserver.Context.Signals.{
  send_signal_to_client, signal_slots, send_signal_to_all_clients, is_minus_one, errors, digits,
  decimal, info_slots, get_current_clients_info,
}

module _ (written : ℤ → ℤ) where
  -- The message cannot be written to the client.
  abbrev pub unreached : Client → Bool
  unreached c = not (is_nonneg c.write_pipe) || is_minus_one (written c.write_pipe)

  abbrev pub writes_to : Bytes → List Client → List Action
  writes_to msg [] = []
  writes_to msg (c ∷ cs) =
      if is_nonneg c.write_pipe
      then write_fd c.write_pipe msg ∷ writes_to msg cs
      else writes_to msg cs

  abbrev pub count_unreached : List Client → ℕ
  count_unreached [] = 0
  count_unreached (c ∷ cs) = if unreached c then suc (count_unreached cs) else count_unreached cs

  sent_one :
      (msg : Bytes) (c : Client) (acts : List Action) (n : ℕ)
      → ((send_signal_to_client written (some c) (some msg)).0 ++ acts
          ≡ (if is_nonneg c.write_pipe then write_fd c.write_pipe msg ∷ acts else acts))
        × (errors (send_signal_to_client written (some c) (some msg)).1 n
            ≡ (if unreached c then suc n else n))
  unfolding send_signal_to_client
  sent_one msg c acts n = elim (Bool-cases (is_nonneg c.write_pipe)) [
    | inl e ↦ elim (Bool-cases (is_minus_one (written c.write_pipe))) [
      | inl f ↦ rw (e, f) (refl, omega arith)
      | inr f ↦ rw (e, f) (refl, refl)
    ]
    | inr e ↦ rw e (refl, omega arith)
  ]

  signal_slots-writes_to :
      (msg : Bytes) (xs : Slots)
      → signal_slots written (length xs) (some msg) xs
        ≡ ok (writes_to msg (registered xs), count_unreached (registered xs))
  unfolding signal_slots registered
  signal_slots-writes_to msg [] = refl
  signal_slots-writes_to msg (none ∷ xs) = signal_slots-writes_to msg xs
  signal_slots-writes_to msg (some c ∷ xs) =
      let one = sent_one msg c (writes_to msg (registered xs)) (count_unreached (registered xs)) in
      rw (signal_slots-writes_to msg xs) (λ i. ok (one.0 i, one.1 i))

  -- sendSignalToAllClients writes the message once to the pipe of every client in the table that
  -- has one, in the order of the table, and returns the number of clients that have no pipe or
  -- whose write fails.
  pub send_signal_to_all_clients-writes_to :
      (msg : Bytes) (xs : Slots) (g : Context)
      → send_signal_to_all_clients written (some msg) (with_table xs g)
        ≡ ok (writes_to msg (registered xs), count_unreached (registered xs))
  unfolding send_signal_to_all_clients
  send_signal_to_all_clients-writes_to msg xs g = signal_slots-writes_to msg xs

-- What the list shows of a client: its number, its address and its port.
abbrev pub shown : Client → Bytes → Bytes
shown c ip = decimal c.pid ++ (9 ∷ 9 ∷ ip ++ (9 ∷ 9 ∷ (decimal c.port ++ 13 ∷ 10 ∷ [])))

-- The clients have these addresses, each no longer than that of an IPv4 host.
pub data Addressed : List Client → List Bytes → Type 0 where
  no_more : Addressed [] []
  one_more :
      (c : Client) (ip : Bytes) (cs : List Client) (ips : List Bytes)
      → c.client_ip ≡ some ip
      → length ip ≤ 15
      → Addressed cs ips
      → Addressed (c ∷ cs) (ip ∷ ips)

abbrev pub all_shown : List Client → List Bytes → Bytes
all_shown (c ∷ cs) (ip ∷ ips) = shown c ip ++ all_shown cs ips
all_shown _ _ = []

length-digits : (fuel n : ℕ) → length (digits fuel n) ≤ fuel
length-digits zero n = omega arith
length-digits (suc fuel) n = elim (Bool-cases (ltb n 10)) [
  | inl e ↦ rw e (omega arith)
  | inr e ↦ rw e (omega (sizes, length-digits fuel (n / 10)))
]

length-shown : (c : Client) (ip : Bytes) → length ip ≤ 15 → length (shown c ip) < 50
length-shown c ip h = omega (
  arith,
  length-append (decimal c.pid) (9 ∷ 9 ∷ ip ++ (9 ∷ 9 ∷ (decimal c.port ++ 13 ∷ 10 ∷ []))),
  length-append ip (9 ∷ 9 ∷ (decimal c.port ++ 13 ∷ 10 ∷ [])),
  length-append (decimal c.port) (13 ∷ 10 ∷ []),
  length-digits 10 c.pid,
  length-digits 10 c.port,
)

info_slots-all_shown :
    (room at : ℕ) (xs : Slots) (ips : List Bytes)
    → Addressed (registered xs) ips
    → at + 50 * length xs ≤ room
    → info_slots room (length xs) at xs ≡ ok (all_shown (registered xs) ips)
unfolding info_slots registered
info_slots-all_shown room at [] _ no_more h = refl
info_slots-all_shown room at (none ∷ xs) ips a h =
    info_slots-all_shown room at xs ips a (omega arith)
info_slots-all_shown room at (some c ∷ xs) _ (one_more _ ip _ ips e l a) h =
    let short = length-shown c ip l in
    rw (e, lt→ltb (length (shown c ip)) 50 short)
      (rw (info_slots-all_shown room (at + length (shown c ip)) xs ips a (omega arith))
        (rw (le→ltb (at + length (shown c ip)) room (omega arith)) refl))

-- Where every client has an IPv4 address, getCurrentClientsInfo writes outside no buffer and gives
-- one line for each client, in the order of the table.
pub get_current_clients_info-all_shown :
    (xs : Slots) (g : Context) (ips : List Bytes)
    → Addressed (registered xs) ips
    → get_current_clients_info (with_table xs g) ≡ ok (all_shown (registered xs) ips)
unfolding get_current_clients_info
get_current_clients_info-all_shown xs g ips a =
    info_slots-all_shown (50 * length xs) 0 xs ips a (omega arith)
