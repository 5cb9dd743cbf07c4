-- ===== src/M6811/Bits.antt =====
-- BSET and BCLR of the 6811 section of src/arch/m68xx/opfunc.c, on a byte of the direct page.
use sim68xx.Common.{
  ℕ, zero, suc, ◌+◌, ◌-◌, ◌^◌, ◌<◌, ◌/◌, bit_and, bit_or, true, u8, u16, ◌≡◌, refl, arith, ap, ◌∙◌,
  ◌==◌, if◌then◌else◌, Bool-cases, inl, inr,
}
use Prim.Native.Nat.{max}
use sim68xx.Common.Bits.{bit, bit-zero, bit-bit_and, bit-bit_or, bit-lt-two, bit_and-le, bit_or-lt}
use sim68xx.Alu.{alu_andbyte, alu_orbyte, alu_bittestbyte}
use sim68xx.Machine.{Machine, Regs, update}
use sim68xx.Machine.Reg.{set_flag}
use sim68xx.Callstack.Contents.{Frames, contents}
use sim68xx.Memory.{Chip, mem_getb}
use sim68xx.Memory.Access.{IsPlain, mem_getb_plain, mem_putb_plain}
use sim68xx.Opfunc.Address.{getaddr_dir, getbyte_imm}
use sim68xx.M6811.Opfunc.Bits.{bclr_dir, bset_dir}
use sim68xx.M6811.Opfunc.Address.{bclr_addr, bset_addr}
use sim68xx.Opfunc.Pushed.{Now}
use sim68xx.Opfunc.Words.{Now-mem_getb, getbyte_imm-Now}

bit-complement : (n k y : ℕ) → k < n → y < 2 ^ n → bit (2 ^ n - 1 - y) k ≡ 1 - bit y k
bit-complement zero k y hk hy = absurd (omega arith)
bit-complement (suc n) zero y hk hy = omega arith
bit-complement (suc n) (suc k) y hk hy =
    let half : (2 ^ suc n - 1 - y) / 2 ≡ 2 ^ n - 1 - y / 2 = omega arith in
    ap (λ t. bit t k) half ∙ bit-complement n k (y / 2) (omega arith) (omega arith)

bit-ones : (k : ℕ) → k < 8 → bit 0xff k ≡ 1
bit-ones k hk = bit-complement 8 k 0 hk (omega arith) ∙ rw (bit-zero k) (omega arith)

-- What `bclr_addr` stores.
bit-cleared :
    (x y k : ℕ)
    → k < 8
    → x < 2 ^ 8
    → y < 2 ^ 8
    → bit (u8 (bit_and (bit_and (u8 x) (u8 (0xff - y))) 0xff)) k ≡ bit x k - bit y k
bit-cleared x y k hk hx hy =
    let same_x : u8 x ≡ x = omega arith in
    let same_y : u8 (0xff - y) ≡ 2 ^ 8 - 1 - y = omega arith in
    let inner = bit_and x (2 ^ 8 - 1 - y) in
    let fits : bit_and inner 0xff < 2 ^ 8 =
      omega (arith, bit_and-le x x (2 ^ 8 - 1 - y), bit_and-le inner inner 0xff) in
    let same : u8 (bit_and inner 0xff) ≡ bit_and inner 0xff = omega arith in
    rw same_x (
      rw same_y (
        rw same (
          rw (bit-bit_and k inner 0xff) (
            rw (bit-bit_and k x (2 ^ 8 - 1 - y)) (
              rw (bit-complement 8 k y hk hy)
                (rw (bit-ones k hk) (ground (arith, bit-lt-two k x, bit-lt-two k y))))))))

-- What `bset_addr` stores.
bit-set :
    (x y k : ℕ)
    → k < 8
    → x < 2 ^ 8
    → y < 2 ^ 8
    → bit (u8 (bit_and (bit_or (u8 x) (u8 y)) 0xff)) k ≡ max (bit x k) (bit y k)
bit-set x y k hk hx hy =
    let same_x : u8 x ≡ x = omega arith in
    let same_y : u8 y ≡ y = omega arith in
    let inner = bit_or x y in
    let fits : bit_and inner 0xff < 2 ^ 8 =
      omega (arith, bit_or-lt 8 x y hx hy, bit_and-le inner inner 0xff) in
    let same : u8 (bit_and inner 0xff) ≡ bit_and inner 0xff = omega arith in
    rw same_x (
      rw same_y (
        rw same (
          rw (bit-bit_and k inner 0xff) (
            rw (bit-bit_or k x y)
              (rw (bit-ones k hk) (ground (arith, bit-lt-two k x, bit-lt-two k y)))))))

module _ ⦃chip : Chip⦄ where
  module _ (ram : ℕ → ℕ) (regs : Regs) (frames : Frames) (m m' : Machine) (addr : ℕ) where
    bclr_addr_lem :
        (plain_pc : IsPlain regs.pc m)
        → IsPlain addr m
        → Now ram regs frames m m'
        → let mask = u8 (ram regs.pc) in
          let m2 = (bclr_addr addr m').1 in
          (m2.mem.ram
            ≡ update ram addr (u8 (bit_and (bit_and (u8 (u8 (ram addr))) (u8 (0xff - mask))) 0xff)))
          × (m2.regs.pc ≡ u16 (regs.pc + 1))
          × (contents m2.callstack ≡ frames)
    unfolding bclr_addr alu_andbyte alu_bittestbyte set_flag
    bclr_addr_lem plain_pc plain now =
        let mask = u8 (ram regs.pc) in
        let v = bit_and (bit_and (u8 (u8 (ram addr))) (u8 (0xff - mask))) 0xff in
        let (vmask, now2) = getbyte_imm-Now ram regs frames m m' plain_pc now in
        let (er, lo, hi, st, rg, fr) = now2 in
        let s2 = (getbyte_imm m').1 in
        let vx : (mem_getb addr s2).0 ≡ u8 (ram addr) =
          mem_getb_plain addr s2 (rw lo (rw hi (rw st plain)))
          ∙ ap (λ (f : ℕ → ℕ). u8 (f addr)) er in
        let (er3, lo3, hi3, st3, rg3, fr3) =
          Now-mem_getb ram (record regs { pc = u16 (regs.pc + 1) }) frames m addr s2 plain now2 in
        let s4 = (alu_andbyte (u8 (ram addr)) (0xff - mask) (mem_getb addr s2).1).1 in
        let (er5, _, _, _, rg5, fr5) = mem_putb_plain addr v s4 (rw lo3 (rw hi3 (rw st3 plain))) in
        rw vmask (
          rw vx (
            er5 ∙ ap (λ (f : ℕ → ℕ). update f addr (u8 v)) er3,
            ap (λ (r : Regs). r.pc) rg5 ∙ ap (λ (r : Regs). r.pc) rg3,
            ap contents fr5 ∙ fr3,
          ))

    bset_addr_lem :
        (plain_pc : IsPlain regs.pc m)
        → IsPlain addr m
        → Now ram regs frames m m'
        → let mask = u8 (ram regs.pc) in
          let m2 = (bset_addr addr m').1 in
          (m2.mem.ram
            ≡ update ram addr (u8 (bit_and (bit_or (u8 (u8 (ram addr))) (u8 (mask))) 0xff)))
          × (m2.regs.pc ≡ u16 (regs.pc + 1))
          × (contents m2.callstack ≡ frames)
    unfolding bset_addr alu_orbyte alu_bittestbyte set_flag
    bset_addr_lem plain_pc plain now =
        let mask = u8 (ram regs.pc) in
        let v = bit_and (bit_or (u8 (u8 (ram addr))) (u8 (mask))) 0xff in
        let (vmask, now2) = getbyte_imm-Now ram regs frames m m' plain_pc now in
        let (er, lo, hi, st, rg, fr) = now2 in
        let s2 = (getbyte_imm m').1 in
        let vx : (mem_getb addr s2).0 ≡ u8 (ram addr) =
          mem_getb_plain addr s2 (rw lo (rw hi (rw st plain)))
          ∙ ap (λ (f : ℕ → ℕ). u8 (f addr)) er in
        let (er3, lo3, hi3, st3, rg3, fr3) =
          Now-mem_getb ram (record regs { pc = u16 (regs.pc + 1) }) frames m addr s2 plain now2 in
        let s4 = (alu_orbyte (u8 (ram addr)) (mask) (mem_getb addr s2).1).1 in
        let (er5, _, _, _, rg5, fr5) = mem_putb_plain addr v s4 (rw lo3 (rw hi3 (rw st3 plain))) in
        rw vmask (
          rw vx (
            er5 ∙ ap (λ (f : ℕ → ℕ). update f addr (u8 v)) er3,
            ap (λ (r : Regs). r.pc) rg5 ∙ ap (λ (r : Regs). r.pc) rg3,
            ap contents fr5 ∙ fr3,
          ))

  -- BCLR and BSET on the direct page, with plain memory for both operands and the byte: of the eight
  -- bits of the byte that the first operand addresses, BCLR clears those of the mask in the second and
  -- BSET sets them. All other bits of memory stay, and the program counter steps over two bytes.
  pub bits_change :
      (i k : ℕ) (m : Machine)
      → k < 8
      → IsPlain m.regs.pc m
      → IsPlain (u16 (m.regs.pc + 1)) m
      → IsPlain (u8 (m.mem.ram m.regs.pc)) m
      → let a = u8 (m.mem.ram m.regs.pc) in
        let mask = u8 (m.mem.ram (u16 (m.regs.pc + 1))) in
        let old = if i == a then u8 (m.mem.ram i) else m.mem.ram i in
        let masked = if i == a then bit mask k else 0 in
        (bit ((bclr_dir m).1.mem.ram i) k ≡ bit old k - masked)
        × (bit ((bset_dir m).1.mem.ram i) k ≡ max (bit old k) masked)
        × ((bclr_dir m).1.regs.pc ≡ u16 (u16 (m.regs.pc + 1) + 1))
        × ((bset_dir m).1.regs.pc ≡ u16 (u16 (m.regs.pc + 1) + 1))
  unfolding bclr_dir bset_dir getaddr_dir getbyte_imm
  bits_change i k m hk first second third =
      let ram = m.mem.ram in
      let a = u8 (ram m.regs.pc) in
      let mask = u8 (ram (u16 (m.regs.pc + 1))) in
      let regs = record m.regs { pc = u16 (m.regs.pc + 1) } in
      let frames = contents m.callstack in
      let here : a == a ≡ true = ground arith in
      let (va, now) =
        getbyte_imm-Now ram m.regs frames m m first (refl, refl, refl, refl, refl, refl) in
      let m1 = (getbyte_imm m).1 in
      let (cleared, pc1, _) = bclr_addr_lem ram regs frames m m1 a second third now in
      let (settled, pc2, _) = bset_addr_lem ram regs frames m m1 a second third now in
      rw va (
        (ap (λ (f : ℕ → ℕ). bit (f i) k) cleared) ∙ elim (Bool-cases (i == a)) [
          | inl e ↦
              let same : i ≡ a = ground arith in
              rw same (rw here (bit-cleared (u8 (ram a)) mask k hk (omega arith) (omega arith)))
          | inr e ↦ rw e (ground arith)
        ],
        (ap (λ (f : ℕ → ℕ). bit (f i) k) settled) ∙ elim (Bool-cases (i == a)) [
          | inl e ↦
              let same : i ≡ a = ground arith in
              rw same (rw here (bit-set (u8 (ram a)) mask k hk (omega arith) (omega arith)))
          | inr e ↦ rw e (ground arith)
        ],
        pc1,
        pc2,
      )
