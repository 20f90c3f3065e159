-- ===== src/Decode/Run.antt =====
-- The state of the decoder of src/decode.c, and the outcomes of its functions.
use qof.Base.{
  Bool, List, Option, [], false, get_elem?, none, some, suc, zero, ℕ, ◌*◌, ◌+◌, ◌^◌, ◌∷◌,
}
use qof.Base.Word.{nonzero, sub64}
use qof.Packet.{FlowKey, IpFragInfo, IpInfo, L2Info, TcpInfo}

-- The counters of `yfDecodeCtx_t`.
pub record Stats : Type 0 where
  pub fail_l2hdr : ℕ
  pub fail_l2shim : ℕ
  pub fail_l2loop : ℕ
  pub fail_l3type : ℕ
  pub fail_arptype : ℕ
  pub fail_ip4hdr : ℕ
  pub fail_ip4frag : ℕ
  pub fail_ip6hdr : ℕ
  pub fail_ip6ext : ℕ
  pub fail_ip6frag : ℕ
  pub fail_l4hdr : ℕ
  pub fail_l4frag : ℕ
  pub fail_grevers : ℕ

-- The configuration of `yfDecodeCtx_t`.
pub record Config : Type 0 where
  pub reqtype : ℕ
  pub gremode : Bool
  pub tomode : Bool

-- What the functions read and write through their pointers. `pkt` is an offset into the captured
-- bytes, `caplen` is unsigned and wraps at 2^64, and `frag` is `none` for a null `fraginfo`.
pub record Decoding : Type 0 where
  pub stats : Stats
  pub caplen : ℕ
  pub pkt : ℕ
  pub type : ℕ
  pub l2info : L2Info
  pub key : FlowKey
  pub iplen : ℕ
  pub ipinfo : IpInfo
  pub tcpinfo : TcpInfo
  pub frag : Option IpFragInfo

-- `fault` is a read outside the captured bytes, `null` the return of a null pointer.
pub data Run (A : Type 0) : Type 0 where
  fault : Run A
  out_of_fuel : Run A
  null : Decoding → Run A
  ok : A → Run A

infixl 5 ◌>>=◌
abbrev pub ◌>>=◌ : {A B : Type 0} → Run A → (A → Run B) → Run B
fault >>= f = fault
out_of_fuel >>= f = out_of_fuel
null s >>= f = null s
ok a >>= f = f a

unfoldable pub byte : List ℕ → ℕ → Run ℕ
byte mem i = elim (get_elem? mem i) [ none ↦ fault | some v ↦ ok v ]

-- Fields of 16 and 32 bits in network order, read whole.
unfoldable pub word16 : List ℕ → ℕ → Run ℕ
word16 mem i = do hi ← byte mem i; lo ← byte mem (i + 1); ok (hi * 256 + lo)

unfoldable pub word32 : List ℕ → ℕ → Run ℕ
word32 mem i = do hi ← word16 mem i; lo ← word16 mem (i + 2); ok (hi * 2 ^ 16 + lo)

-- `memcpy` of `n` bytes.
unfoldable pub bytes : List ℕ → (i n : ℕ) → Run (List ℕ)
bytes mem i zero = ok []
bytes mem i (suc n) = do b ← byte mem i; rest ← bytes mem (i + 1) n; ok (b ∷ rest)

-- `pkt += n; *caplen -= n`
abbrev pub advance : ℕ → Decoding → Decoding
advance n s = record s { pkt = s.pkt + n; caplen = sub64 s.caplen n }

-- Whether there is a fragment information structure that says that the packet is a fragment.
abbrev pub is_frag : Decoding → Bool
is_frag s = elim (s.frag) [ none ↦ false | some f ↦ nonzero f.frag ]

-- Writes through `fraginfo`, if it is not null.
abbrev pub on_frag : (IpFragInfo → IpFragInfo) → Decoding → Decoding
on_frag f s = record s { frag = elim (s.frag) [ none ↦ none | some i ↦ some (f i) ] }
