-- ===== src/Opfunc/Decide.antt =====
-- The conditional branches after a comparison of two bytes.
use sim68xx.Common.{
  ℕ, ◌+◌, ◌-◌, ◌%◌, ◌<◌, bit_or, bit_xor, Bool, true, false, not, ◌||◌, ◌==◌, leb, ltb, ◌≡◌, refl,
  arith, ap, ◌∙◌, u8, u16, s_char, if◌then◌else◌,
}
use sim68xx.Machine.{Machine, M, Regs}
use sim68xx.Machine.Reg.{Flag, truth, reg_incpc}
use sim68xx.Callstack.Contents.{contents}
use sim68xx.Memory.Access.{IsPlain}
use sim68xx.Opfunc.Pushed.{Now}
use sim68xx.Opfunc.Words.{getbyte_imm-Now}
use sim68xx.Machine.Flags.{truth-nonzero}
use sim68xx.Memory.{Chip}
use sim68xx.Alu.{alu_subbyte}
use sim68xx.Alu.Spec.{flag, biased8, differs}
use sim68xx.Alu.Sub.{alu_subbyte_lem}
use sim68xx.Opfunc.Address.{branch_expr}
use sim68xx.Opfunc.Branch.{
  bcc_rel, bcs_rel, beq_rel, bge_rel, bgt_rel, bhi_rel, ble_rel, bls_rel, blt_rel, bne_rel,
}

xor-zero : (x y : Bool) → (bit_xor (truth x) (truth y) == 0) ≡ not (differs x y)
xor-zero true true = refl
xor-zero true false = refl
xor-zero false true = refl
xor-zero false false = refl

xor-one : (x y : Bool) → (bit_xor (truth x) (truth y) == 1) ≡ differs x y
xor-one true true = refl
xor-one true false = refl
xor-one false true = refl
xor-one false false = refl

or-zero : (x y : Bool) → (bit_or (truth x) (truth y) == 0) ≡ not (x || y)
or-zero true true = refl
or-zero true false = refl
or-zero false true = refl
or-zero false false = refl

or-one : (x y : Bool) → (bit_or (truth x) (truth y) == 1) ≡ (x || y)
or-one true true = refl
or-one true false = refl
or-one false true = refl
or-one false false = refl

or_xor-zero :
    (z x y : Bool) → (bit_or (truth z) (bit_xor (truth x) (truth y)) == 0) ≡ not (z || differs x y)
or_xor-zero true true true = refl
or_xor-zero true true false = refl
or_xor-zero true false true = refl
or_xor-zero true false false = refl
or_xor-zero false true true = refl
or_xor-zero false true false = refl
or_xor-zero false false true = refl
or_xor-zero false false false = refl

or_xor-one :
    (z x y : Bool) → (bit_or (truth z) (bit_xor (truth x) (truth y)) == 1) ≡ (z || differs x y)
or_xor-one true true true = refl
or_xor-one true true false = refl
or_xor-one true false true = refl
or_xor-one true false false = refl
or_xor-one false true true = refl
or_xor-one false true false = refl
or_xor-one false false true = refl
or_xor-one false false false = refl

truth-zero : (x : Bool) → (truth x == 0) ≡ not x
truth-zero true = refl
truth-zero false = refl

-- The flags of a comparison as tests of the two bytes, without sign and in two's complement.
record Compared (a b : ℕ) (m : Machine) : Type 0 where
  below : flag Flag.c m ≡ ltb a b
  equal : flag Flag.z m ≡ (a == b)
  less : differs (flag Flag.n m) (flag Flag.v m) ≡ ltb (biased8 a) (biased8 b)

less8 :
    (a b : ℕ)
    → a < 256
    → b < 256
    → differs
        (leb 128 ((a + 512 - b - 0) % 256))
        (ltb (biased8 a + 128) (biased8 b + 0) || ltb (biased8 b + 0 + 127) (biased8 a))
      ≡ ltb (biased8 a) (biased8 b)
less8 a b ha hb = ground arith

alu_subbyte-Compared :
    (a b : ℕ) (m : Machine) → a < 256 → b < 256 → Compared a b (alu_subbyte a b 0 m).1
alu_subbyte-Compared a b m ha hb =
    let (r, c, h, v, (n, z), rest) = alu_subbyte_lem a b 0 m ha hb (omega arith) in
    record {
      below = c ∙ ap (ltb a) (omega arith);
      equal = z ∙ ground arith;
      less = rw n (rw v (less8 a b ha hb));
    }

above : (a b : ℕ) (c z : Bool) → c ≡ ltb a b → z ≡ (a == b) → not (c || z) ≡ ltb b a
above a b c z hc hz = ground arith

not_above : (a b : ℕ) (c z : Bool) → c ≡ ltb a b → z ≡ (a == b) → (c || z) ≡ leb a b
not_above a b c z hc hz = ground arith

greater :
    (a b : ℕ) (z l : Bool)
    → a < 256
    → b < 256
    → z ≡ (a == b)
    → l ≡ ltb (biased8 a) (biased8 b)
    → not (z || l) ≡ ltb (biased8 b) (biased8 a)
greater a b z l ha hb hz hl = ground arith

not_greater :
    (a b : ℕ) (z l : Bool)
    → a < 256
    → b < 256
    → z ≡ (a == b)
    → l ≡ ltb (biased8 a) (biased8 b)
    → (z || l) ≡ leb (biased8 a) (biased8 b)
not_greater a b z l ha hb hz hl = ground arith

-- Where a branch goes from the address `pc` of its offset.
abbrev pub destination : Bool → ℕ → ℕ → ℕ
destination true offset pc = (pc + 1 + 65536 + biased8 offset - 128) % 65536
destination false offset pc = (pc + 1) % 65536

lands :
    (taken : Bool) (x pc : ℕ)
    → u16 (u16 (pc + 1) + (if taken then s_char (u8 x) else 0)) ≡ destination taken (u8 x) pc
lands true x pc = ground arith
lands false x pc = ground arith

-- A branch from `m` is taken, or not, and changes nothing but the program counter.
abbrev pub Goes : Bool → M (Unit {0}) → Machine → Type 0
Goes taken branch m =
    Now m.mem.ram (record m.regs { pc = destination taken (u8 (m.mem.ram m.regs.pc)) m.regs.pc })
      (contents m.callstack) m (branch m).1

module _ ⦃chip : Chip⦄ where
  -- The condition of each branch.
  branches_test :
      (a b : ℕ) (m : Machine)
      → a < 256
      → b < 256
      → let m' = (alu_subbyte a b 0 m).1 in
        (beq_rel m' ≡ branch_expr (a == b) m')
        × (bne_rel m' ≡ branch_expr (not (a == b)) m')
        × (bcs_rel m' ≡ branch_expr (ltb a b) m')
        × (bcc_rel m' ≡ branch_expr (leb b a) m')
        × (bhi_rel m' ≡ branch_expr (ltb b a) m')
        × (bls_rel m' ≡ branch_expr (leb a b) m')
        × (bge_rel m' ≡ branch_expr (leb (biased8 b) (biased8 a)) m')
        × (blt_rel m' ≡ branch_expr (ltb (biased8 a) (biased8 b)) m')
        × (bgt_rel m' ≡ branch_expr (ltb (biased8 b) (biased8 a)) m')
        × (ble_rel m' ≡ branch_expr (leb (biased8 a) (biased8 b)) m')
  unfolding beq_rel bne_rel bcs_rel bcc_rel bhi_rel bls_rel bge_rel blt_rel bgt_rel ble_rel
  branches_test a b m ha hb =
      let m' = (alu_subbyte a b 0 m).1 in
      let t = alu_subbyte-Compared a b m ha hb in
      let c = flag Flag.c m' in
      let z = flag Flag.z m' in
      let n = flag Flag.n m' in
      let v = flag Flag.v m' in
      (
        ap (λ u. branch_expr u m') (truth-nonzero z ∙ t.equal),
        ap (λ u. branch_expr u m') (truth-zero z ∙ ap not t.equal),
        ap (λ u. branch_expr u m') (truth-nonzero c ∙ t.below),
        ap (λ u. branch_expr u m') (truth-zero c ∙ ap not t.below ∙ ground arith),
        ap (λ u. branch_expr u m') (or-zero c z ∙ above a b c z t.below t.equal),
        ap (λ u. branch_expr u m') (or-one c z ∙ not_above a b c z t.below t.equal),
        ap (λ u. branch_expr u m') (xor-zero n v ∙ ap not t.less ∙ ground arith),
        ap (λ u. branch_expr u m') (xor-one n v ∙ t.less),
        ap (λ u. branch_expr u m')
            (or_xor-zero z n v ∙ greater a b z (differs n v) ha hb t.equal t.less),
        ap (λ u. branch_expr u m')
            (or_xor-one z n v ∙ not_greater a b z (differs n v) ha hb t.equal t.less),
      )

  branch_expr-Goes :
      (taken : Bool) (m : Machine) → IsPlain m.regs.pc m → Goes taken (branch_expr taken) m
  unfolding branch_expr reg_incpc
  branch_expr-Goes taken m plain =
      let (offset, now) =
        getbyte_imm-Now m.mem.ram m.regs (contents m.callstack) m m plain
          (refl, refl, refl, refl, refl, refl) in
      let x = u8 (m.mem.ram m.regs.pc) in
      let there : u16 (u16 (m.regs.pc + 1) + (if taken then s_char x else 0))
          ≡ destination taken x m.regs.pc =
        lands taken (m.mem.ram m.regs.pc) m.regs.pc in
      rw offset (
        let (er, lo, hi, st, rg, fr) = now in
        (
          er,
          lo,
          hi,
          st,
          ap (λ (r : Regs). record r { pc = u16 (r.pc + (if taken then s_char x else 0)) }) rg
              ∙ ap (λ (t : ℕ). record m.regs { pc = t }) there,
          fr,
        ))

  Goes-test :
      (taken : Bool) (branch : M (Unit {0})) (m : Machine)
      → IsPlain m.regs.pc m
      → branch m ≡ branch_expr taken m
      → Goes taken branch m
  Goes-test taken branch m plain same = rw same (branch_expr-Goes taken m plain)

  -- After a comparison of the bytes `a` and `b`, with the offset in plain memory, each conditional
  -- branch goes to the address behind the offset plus the offset, in two's complement, exactly when the
  -- bytes are so related, and else to the address behind the offset: `bhi`, `bls`, `bcc` and `bcs`
  -- without sign, `bge`, `blt`, `bgt` and `ble` in two's complement. No other register, no byte of
  -- memory and no frame changes with it.
  pub branches_compare :
      (a b : ℕ) (m : Machine)
      → a < 256
      → b < 256
      → IsPlain m.regs.pc m
      → let m' = (alu_subbyte a b 0 m).1 in
        Goes (a == b) beq_rel m'
        × Goes (not (a == b)) bne_rel m'
        × Goes (ltb a b) bcs_rel m'
        × Goes (leb b a) bcc_rel m'
        × Goes (ltb b a) bhi_rel m'
        × Goes (leb a b) bls_rel m'
        × Goes (leb (biased8 b) (biased8 a)) bge_rel m'
        × Goes (ltb (biased8 a) (biased8 b)) blt_rel m'
        × Goes (ltb (biased8 b) (biased8 a)) bgt_rel m'
        × Goes (leb (biased8 a) (biased8 b)) ble_rel m'
  branches_compare a b m ha hb plain =
      let m' = (alu_subbyte a b 0 m).1 in
      let (_, _, _, _, _, (kept, _, _, _)) = alu_subbyte_lem a b 0 m ha hb (omega arith) in
      let plain' : IsPlain m'.regs.pc m' = rw kept plain in
      let (eq, ne, cs, cc, hi, ls, ge, lt, gt, le) = branches_test a b m ha hb in
      (
        Goes-test (a == b) beq_rel m' plain' eq,
        Goes-test (not (a == b)) bne_rel m' plain' ne,
        Goes-test (ltb a b) bcs_rel m' plain' cs,
        Goes-test (leb b a) bcc_rel m' plain' cc,
        Goes-test (ltb b a) bhi_rel m' plain' hi,
        Goes-test (leb a b) bls_rel m' plain' ls,
        Goes-test (leb (biased8 b) (biased8 a)) bge_rel m' plain' ge,
        Goes-test (ltb (biased8 a) (biased8 b)) blt_rel m' plain' lt,
        Goes-test (ltb (biased8 b) (biased8 a)) bgt_rel m' plain' gt,
        Goes-test (leb (biased8 a) (biased8 b)) ble_rel m' plain' le,
      )
