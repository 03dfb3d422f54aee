-- ===== src/Value/Example.antt =====
-- Readers that read every string as the address 127.0.0.1 or the number 80.
use xdpacket.Base.{ℕ, true, false, none, some, List, [], ◌∷◌, ap, sym, arith, length, pos}
use mathlib.Core.Option.{some-injective}
use xdpacket.Value.{Readers}
use xdpacket.Value.Length.{IsReaders}

abbrev localhost : List ℕ
localhost = 127 ∷ 0 ∷ 0 ∷ 1 ∷ []

abbrev pub readers : Readers
readers = record {
  re_ipv4 = λ s. false;
  re_mac = λ s. false;
  re_int = λ s. true;
  re_ipv6 = λ s. false;
  re_hex = λ s. false;
  inet_pton4 = λ s. some localhost;
  sscanf_mac = λ s. none;
  strtoll = λ s. some (pos 80);
  inet_pton6 = λ s. none;
  hx2b_be = λ s n. none;
  chars = λ s. [];
}

pub readers-IsReaders : IsReaders readers
readers-IsReaders = record {
  ip4 = λ s bs e. ap length (sym (some-injective _ _ e));
  mac = λ s bs e. absurd (ground arith);
  ip6 = λ s bs e. absurd (ground arith);
  hex = λ s n bs e. absurd (ground arith);
}
