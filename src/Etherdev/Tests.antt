-- ===== src/Etherdev/Tests.antt =====
-- Packets for one interface with three connections, and addresses.
use inferno_kirkwood.Prelude.{
  ℕ, ◌≡◌, refl, arith, true, false, none, some, List, [], ◌∷◌, ◌++◌, ◌-◌, ltb, if◌then◌else◌, ◌+◌,
  ◌*◌, ◌/◌, ◌%◌, ◌<◌, replicate,
}
use inferno_kirkwood.Crc.Same.{IsBytes}
use inferno_kirkwood.Etherdev.Netif.{Ether}
use inferno_kirkwood.Etherdev.Input.{way_of, etheriq}
use inferno_kirkwood.Etherdev.Output.{parseether}
use inferno_kirkwood.Etherdev.Hub.{Log, logging, IsHub, etheriq-IsHub}
use inferno_kirkwood.Etherdev.Address.{print_bytes, parseether-print_bytes, hex_digit}

abbrev us : List ℕ
us = 0 ∷ 80 ∷ 67 ∷ 1 ∷ 2 ∷ 0xab ∷ []

abbrev peer : List ℕ
peer = 0 ∷ 26 ∷ 17 ∷ 3 ∷ 4 ∷ 5 ∷ []

-- One connection for IP, one that traces all packets, one for ARP.
abbrev eth : Ether
eth = record {
  f =
      some
        (record { queue = 1; type = some 2048; prom = false; bridge = false; headersonly = false })
      ∷ none
      ∷ some (record { queue = 2; type = none; prom = true; bridge = false; headersonly = true })
      ∷ some (record {
        queue = 3;
        type = some 2054;
        prom = false;
        bridge = false;
        headersonly = false;
      })
      ∷ [];
  inpackets = 7;
  outpackets = 0;
  soverflows = 0;
  prom = false;
  ea = us;
  bcast = replicate 6 255;
  minmtu = 60;
  maxmtu = 1514;
}

abbrev ip_packet : List ℕ
ip_packet = us ++ (peer ++ (8 ∷ 0 ∷ 69 ∷ 0 ∷ []))

abbrev idle : Log
idle = record { passed = []; freed = 0 }

etheriq-IsHub_example :
    IsHub
      (λ n. replicate n 0)
      258
      (way_of eth [] ip_packet true)
      ip_packet
      eth
      (etheriq (logging (λ n. replicate n 0)) (λ a. false) 258 [] eth ip_packet true idle).1.0
      idle
      (etheriq (logging (λ n. replicate n 0)) (λ a. false) 258 [] eth ip_packet true idle).1.1
      (etheriq (logging (λ n. replicate n 0)) (λ a. false) 258 [] eth ip_packet true idle).0
etheriq-IsHub_example =
    etheriq-IsHub (λ n. replicate n 0) (λ a. false) 258 [] eth ip_packet true idle refl

abbrev digit_value : ℕ → ℕ
digit_value c = if ltb c 58 then c - 48 else c - 55

abbrev two_digits : ℕ → ℕ → ℕ
two_digits a b = digit_value a * 16 + digit_value b

digit_value-hex_digit : (n : ℕ) → n < 16 → digit_value (hex_digit n) ≡ n
digit_value-hex_digit n small = ground arith

two_digits_read : (n : ℕ) → n < 256 → two_digits (hex_digit (n / 16)) (hex_digit (n % 16)) ≡ n
two_digits_read n small = omega (
  arith,
  digit_value-hex_digit (n / 16) (omega arith),
  digit_value-hex_digit (n % 16) (omega arith),
)

us-IsBytes : IsBytes us
us-IsBytes =
    (omega arith, (omega arith, (omega arith, (omega arith, (omega arith, (omega arith, tt))))))

parseether-print_bytes_example : parseether two_digits (print_bytes true us) ≡ some us
parseether-print_bytes_example =
    parseether-print_bytes two_digits two_digits_read true us us-IsBytes refl
