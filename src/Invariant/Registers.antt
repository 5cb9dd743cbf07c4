-- ===== src/Invariant/Registers.antt =====
-- The writes of registers and flags preserve the invariant.
use sim68xx.Common.{ℕ, ◌-◌, ◌^◌, ◌<◌, arith, Bool, true, false, if◌then◌else◌}
use sim68xx.Common.Bits.{bit_and-le, bit_or-lt}
use sim68xx.Machine.{Machine, Message, M, report, when}
use sim68xx.Machine.Reg.{
  Flag, mask, with_flag, set_flag, reg_setacca, reg_setaccb, reg_setaccd, reg_setix, reg_setiy,
  reg_setpc, reg_setccr, reg_incpc, reg_postincpc,
}
use sim68xx.Invariant.{IsValid, Keeps}

mask-lt : (f : Flag) → mask f < 2 ^ 8
mask-lt Flag.c = omega arith
mask-lt _ = omega arith

pub with_flag-lt : (f : Flag) (e : Bool) (r : ℕ) → r < 2 ^ 8 → with_flag f e r < 2 ^ 8
unfolding with_flag
with_flag-lt f true r h = bit_or-lt 8 r (mask f) h (mask-lt f)
with_flag-lt f false r h = omega (arith, bit_and-le r r (0xff - mask f))

pub set_flag-IsValid : (f : Flag) (e : Bool) → Keeps (set_flag f e)
unfolding set_flag
set_flag-IsValid f e m v = ground (arith, with_flag-lt f e m.regs.ccr v.ccr_byte)

pub reg_setacca-IsValid : (value : ℕ) → Keeps (reg_setacca value)
unfolding reg_setacca
reg_setacca-IsValid value m v = ground arith

pub reg_setaccb-IsValid : (value : ℕ) → Keeps (reg_setaccb value)
unfolding reg_setaccb
reg_setaccb-IsValid value m v = ground arith

pub reg_setaccd-IsValid : (value : ℕ) → Keeps (reg_setaccd value)
unfolding reg_setaccd
reg_setaccd-IsValid value m v = ground arith

pub reg_setix-IsValid : (value : ℕ) → Keeps (reg_setix value)
unfolding reg_setix
reg_setix-IsValid value m v = ground arith

pub reg_setiy-IsValid : (value : ℕ) → Keeps (reg_setiy value)
unfolding reg_setiy
reg_setiy-IsValid value m v = ground arith

pub reg_setpc-IsValid : (value : ℕ) → Keeps (reg_setpc value)
unfolding reg_setpc
reg_setpc-IsValid value m v = ground arith

pub reg_setccr-IsValid : (value : ℕ) → Keeps (reg_setccr value)
unfolding reg_setccr
reg_setccr-IsValid value m v = ground arith

pub reg_incpc-IsValid : (value : ℕ) → Keeps (reg_incpc value)
unfolding reg_incpc
reg_incpc-IsValid value m v = ground arith

pub reg_postincpc-IsValid : (value : ℕ) → Keeps (reg_postincpc value)
unfolding reg_postincpc
reg_postincpc-IsValid value m v = ground arith

pub report-IsValid : (e : Message) → Keeps (report e)
unfolding report
report-IsValid e m v = ground arith

pub set_call_level-IsValid :
    (n : ℕ) (m : Machine) → IsValid m → IsValid (record m { call_level = n })
set_call_level-IsValid n m v = ground arith

pub set_rti_pc-IsValid : (n : ℕ) (m : Machine) → IsValid m → IsValid (record m { rti_pc = n })
set_rti_pc-IsValid n m v = ground arith

pub when-IsValid : (b : Bool) (c : M (Unit {0})) → Keeps c → Keeps (when b c)
when-IsValid true c h m v = h m v
when-IsValid false c h m v = v

pub if-IsValid :
    {A : Type 0} (b : Bool) (c d : M A) → Keeps c → Keeps d → Keeps (if b then c else d)
if-IsValid true c d hc hd = hc
if-IsValid false c d hc hd = hd

pub ruleset register_rules = (
  set_flag-IsValid, reg_setacca-IsValid, reg_setaccb-IsValid, reg_setaccd-IsValid,
  reg_setix-IsValid, reg_setiy-IsValid, reg_setpc-IsValid, reg_setccr-IsValid, reg_incpc-IsValid,
  reg_postincpc-IsValid, report-IsValid, set_call_level-IsValid, set_rti_pc-IsValid, when-IsValid,
)
