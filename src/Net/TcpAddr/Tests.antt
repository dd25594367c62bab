-- ===== src/Net/TcpAddr/Tests.antt =====
-- Addresses on concrete texts, with an `inet_pton` that takes "1.2.3.4" only.
use fish_rpc.Prelude.{
  ◌==◌, if◌then◌else◌, ℕ, ◌≡◌, refl, Option, none, some, List, [], ◌∷◌, ◌++◌, arith,
}
use fish_rpc.Prelude.Outcome.{ok, fault, Fault}
use fish_rpc.Prelude.Int.{pos}
use fish_rpc.Log.Decimal.{convert}
use fish_rpc.Net.TcpAddr.{of_text, of_ip_port}
use fish_rpc.Net.TcpAddr.Texts.{of_text-printed}

-- "1.2.3.4"
abbrev local : List ℕ
local = 49 ∷ 46 ∷ 50 ∷ 46 ∷ 51 ∷ 46 ∷ 52 ∷ []

abbrev one_ip : List ℕ → Option ℕ
one_ip [] = none
one_ip (c ∷ cs) = if c == 49 then some 67305985 else none

abbrev one_text : ℕ → List ℕ
one_text s = local

-- "8848"
abbrev printed_port : List ℕ
printed_port = 56 ∷ 56 ∷ 52 ∷ 56 ∷ []

printed : convert (pos 8848) ≡ ok printed_port
unfolding convert
printed = refl

port_65536 :
    of_ip_port one_ip one_text local (pos 65536) ≡ ok (record { ip = local; port = pos 65536 })
unfolding of_ip_port
port_65536 = refl

no_colon : of_text one_ip one_text local ≡ fault Fault.runtime_error
unfolding of_text
no_colon = refl

of_text-printed_example :
    of_text one_ip one_text (local ++ (58 ∷ printed_port))
    ≡ of_ip_port one_ip one_text local (pos 8848)
of_text-printed_example =
    of_text-printed one_ip one_text local printed_port 8848
      (refl, (refl, (refl, (refl, (refl, (refl, (refl, tt))))))) (omega arith) printed
