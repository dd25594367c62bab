-- ===== src/Net/TcpAddr.antt =====
-- Fish/net/tcp_addr.h and source/net/tcp_addr.cpp: an address and a port, checked. The conversions
-- of the C library between the text of an address and its 32 bits are parameters.
pub mod Texts
mod Tests
use fish_rpc.Prelude.{
  ltb, leb, ◌==◌, if◌then◌else◌, ℕ, ◌+◌, ◌-◌, ◌*◌, ◌/◌, ◌%◌, ◌^◌, Bool, true, false, ◌&&◌, ◌||◌,
  not, Option, none, some, List, [], ◌∷◌,
}
use fish_rpc.Prelude.Outcome.{Outcome, ok, fault, Fault, ◌>>=◌, ◌>>◌, check}
use fish_rpc.Prelude.Int.{ℤ, pos, negsuc, pos_part, neg_part, sub_ℕ, ltb_ℤ}

-- An ip as text, and the port, -1 where nothing was set.
pub record TcpAddr : Type 0 where
  pub ip : List ℕ
  pub port : ℤ

unfoldable pub nowhere : TcpAddr
nowhere = record { ip = []; port = negsuc 0 }

-- The two fields of a `sockaddr_in` that are read, as they lie in memory.
pub record SockaddrIn : Type 0 where
  pub sin_addr : ℕ
  pub sin_port : ℕ

-- The bytes of a text up to the first zero.
unfoldable pub c_str : List ℕ → List ℕ
c_str [] = []
c_str (c ∷ cs) = let rest = c_str cs in if c == 0 then [] else c ∷ rest

-- `htons` and `ntohs`: the two bytes of a word change places.
unfoldable pub htons : ℕ → ℕ
htons x = x % 256 * 256 + x / 256 % 256

unfoldable pub ntohs : ℕ → ℕ
unfolding htons
ntohs x = htons x

-- `std::find` of a colon: what is before it and what is behind it.
unfoldable pub split_colon : List ℕ → Option (List ℕ × List ℕ)
split_colon [] = none
split_colon (c ∷ cs) =
    let rest = split_colon cs in
    if c == 58
    then some ([], cs)
    else elim rest [ none ↦ none | some (before, behind) ↦ some (c ∷ before, behind) ]

abbrev pub is_digit : ℕ → Bool
is_digit c = leb 48 c && leb c 57

abbrev pub is_space : ℕ → Bool
is_space c = c == 32 || leb 9 c && leb c 13

unfoldable pub skip_spaces : List ℕ → List ℕ
skip_spaces [] = []
skip_spaces (c ∷ cs) = let rest = skip_spaces cs in if is_space c then rest else c ∷ cs

-- The number that the digits at the front spell, behind those that were read.
unfoldable pub leading : ℕ → List ℕ → ℕ
leading acc [] = acc
leading acc (c ∷ cs) =
    let rest = leading (10 * acc + (c - 48)) cs in if is_digit c then rest else acc

unfoldable pub signed_number : List ℕ → ℤ
unfolding leading
signed_number [] = pos 0
signed_number (c ∷ cs) =
    if c == 45
    then sub_ℕ 0 (leading 0 cs)
    else if c == 43
    then pos (leading 0 cs)
    else pos (leading 0 (c ∷ cs))

-- `std::atoi`, whose behaviour is undefined where the number is no `int`.
unfoldable pub atoi : List ℕ → Outcome ℤ
unfolding signed_number skip_spaces
atoi text = do
  let z = signed_number (skip_spaces text)
  check (ltb (pos_part z) (2 ^ 31) && leb (neg_part z) (2 ^ 31)) Fault.out_of_bounds
  ok z

-- Whether `inet_pton` returns 1.
abbrev pub is_taken : Option ℕ → Bool
is_taken none = false
is_taken (some s) = true

module _ (inet_pton : List ℕ → Option ℕ) (inet_ntop : ℕ → List ℕ) where
  -- `avlid`.
  unfoldable pub avlid : List ℕ → ℤ → Bool
  unfolding c_str
  avlid ip port =
      is_taken (inet_pton (c_str ip)) && not (ltb_ℤ (pos 65536) port || not (ltb_ℤ (pos 0) port))

  -- `TcpAddr(str, port)`.
  unfoldable pub of_ip_port : List ℕ → ℤ → Outcome TcpAddr
  unfolding avlid
  of_ip_port str port =
      if avlid str port then ok (record { ip = str; port = port }) else fault Fault.runtime_error

  -- `TcpAddr(addr)`.
  unfoldable pub of_sockaddr : SockaddrIn → Outcome TcpAddr
  unfolding avlid ntohs
  of_sockaddr addr =
      let ip = inet_ntop addr.sin_addr in
      let port = pos (ntohs addr.sin_port) in
      if avlid ip port then ok (record { ip = ip; port = port }) else fault Fault.runtime_error

  -- The parts of a text that has a colon.
  unfoldable pub of_parts : Option (List ℕ × List ℕ) → Outcome TcpAddr
  unfolding avlid atoi c_str
  of_parts none = fault Fault.runtime_error
  of_parts (some (ip, port_str)) = do
    port ← atoi (c_str port_str)
    if avlid ip port then ok (record { ip = ip; port = port }) else fault Fault.runtime_error

  -- `TcpAddr(str)`.
  unfoldable pub of_text : List ℕ → Outcome TcpAddr
  unfolding of_parts split_colon
  of_text str = of_parts (split_colon str)
