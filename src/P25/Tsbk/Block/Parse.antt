-- ===== src/P25/Tsbk/Block/Parse.antt =====
-- A reader of blocks, which checks the check word, and what it gets from the blocks that are built.
use site_sim.Base.{
  ℕ, ◌+◌, ◌*◌, ◌/◌, ◌%◌, ◌^◌, ◌<◌, bit_or, ◌≡◌, refl, ◌∙◌, List, [], ◌∷◌, Option, none, some,
  length, All, Bool, true, false, ◌==◌, ==_iff, if◌then◌else◌, u16, ◌<<◌, word_bytes, spell_bytes,
  spell_bytes-word, IsByte, arith,
}
use site_sim.Bits.{bit_and_mask, bit_or_above}
use site_sim.P25.Tsbk.Crc.{crc_ccitt, crc_ccitt-lt}
use site_sim.P25.Tsbk.Block.{block_header, build_tsbk}

pub record Block : Type 0 where
  pub last_block : Bool
  pub opcode : ℕ
  pub mfid : ℕ
  pub args : ℕ

abbrev header_fields : ℕ → ℕ → Block
header_fields high args = record {
  last_block = high / 2 ^ 15 == 1;
  opcode = high / 256 % 64;
  mfid = high % 256;
  args = args;
}

-- Twelve bytes, of which the last two must be the check word of the others.
pub read_tsbk : ℕ → ℕ → List ℕ → ℕ → ℕ → Option Block
read_tsbk h1 h0 body c1 c0 =
    let high = h1 * 256 + h0 in
    let args = spell_bytes 0 body in
    if crc_ccitt high args == c1 * 256 + c0 then some (header_fields high args) else none

pub parse_tsbk : List ℕ → Option Block
parse_tsbk (h1 ∷ h0 ∷ a ∷ b ∷ c ∷ d ∷ e ∷ f ∷ g ∷ h ∷ c1 ∷ c0 ∷ []) =
    read_tsbk h1 h0 (a ∷ b ∷ c ∷ d ∷ e ∷ f ∷ g ∷ h ∷ []) c1 c0
parse_tsbk _ = none

abbrev flag : Bool → ℕ
flag b = if b then 1 else 0

header-lt : (lb : Bool) (opcode mfid : ℕ) → block_header lb opcode mfid < 2 ^ 16
unfolding block_header
header-lt lb opcode mfid = omega arith

header-sum :
    (lb : Bool) (opcode mfid : ℕ)
    → opcode < 64
    → mfid < 256
    → block_header lb opcode mfid ≡ flag lb * 2 ^ 15 + opcode * 256 + mfid
unfolding block_header
header-sum lb opcode mfid ho hm = joined lb
  where
    fields :
        (top : ℕ)
        → top % 2 ^ 15 ≡ 0
        → top < 2 ^ 16
        → u16 (bit_or (bit_or top (u16 opcode << 8)) (u16 mfid)) ≡ top + opcode * 256 + mfid
    fields top h k =
        let upper : bit_or top (u16 opcode << 8) ≡ top + opcode * 256 =
          bit_or_above 15 top (u16 opcode << 8) h (omega arith) ∙ omega arith in
        rw upper (
          omega (arith, bit_or_above 8 (top + opcode * 256) (u16 mfid) (omega arith) (omega arith)))

    joined : (b : Bool) → block_header b opcode mfid ≡ flag b * 2 ^ 15 + opcode * 256 + mfid
    joined true = fields (2 ^ 15) refl (omega arith)
    joined false = fields 0 refl (omega arith)

read_tsbk_lem :
    (h1 h0 c1 c0 high args : ℕ) (body : List ℕ)
    → h1 * 256 + h0 ≡ high
    → spell_bytes 0 body ≡ args
    → c1 * 256 + c0 ≡ crc_ccitt high args
    → read_tsbk h1 h0 body c1 c0 ≡ some (header_fields high args)
unfolding read_tsbk
read_tsbk_lem h1 h0 c1 c0 high args body eh ea ec =
    rw (eh, ea, ec, (==_iff (crc_ccitt high args) (crc_ccitt high args)).1 refl)

-- Every block has twelve bytes.
pub build_tsbk-IsBytes :
    (lb : Bool) (opcode mfid args : ℕ)
    → (length (build_tsbk lb opcode mfid args) ≡ 12) × All IsByte (build_tsbk lb opcode mfid args)
unfolding build_tsbk word_bytes
build_tsbk-IsBytes lb opcode mfid args = (refl, omega arith)

-- Twelve bytes.
pub record IsBlock (tsbk : List ℕ) : Type 0 where
  pub size : length tsbk ≡ 12
  pub bytes : All IsByte tsbk

pub build_tsbk-IsBlock :
    (lb : Bool) (opcode mfid args : ℕ) → IsBlock (build_tsbk lb opcode mfid args)
build_tsbk-IsBlock lb opcode mfid args = record {
  size = (build_tsbk-IsBytes lb opcode mfid args).0;
  bytes = (build_tsbk-IsBytes lb opcode mfid args).1;
}

-- A block of a six-bit opcode, an eight-bit manufacturer and 64 argument bits is read back as it was
-- built, its check word found right.
pub parse-build_tsbk :
    (lb : Bool) (opcode mfid args : ℕ)
    → opcode < 64
    → mfid < 256
    → args < 2 ^ 64
    → parse_tsbk (build_tsbk lb opcode mfid args)
      ≡ some (record { last_block = lb; opcode = opcode; mfid = mfid; args = args })
unfolding build_tsbk word_bytes parse_tsbk
parse-build_tsbk lb opcode mfid args ho hm ha =
    read_tsbk_lem _ _ _ _ high args (word_bytes 8 args)
      (omega (arith, bit_and_mask 8 high, header-lt lb opcode mfid)) (spell_bytes-word args ha)
      (omega (arith, bit_and_mask 8 (crc_ccitt high args), crc_ccitt-lt high args))
    ∙ fields lb
  where
    high : ℕ
    high = block_header lb opcode mfid

    fields :
        (b : Bool)
        → some (header_fields (block_header b opcode mfid) args)
          ≡ some (record { last_block = b; opcode = opcode; mfid = mfid; args = args })
    fields true = ground (arith, header-sum true opcode mfid ho hm)
    fields false = ground (arith, header-sum false opcode mfid ho hm)
