-- ===== src/Telegram/Modes.antt =====
-- src/wmbus.cc and src/wmbus.h: the tables of the CI fields, of the security modes and of the kinds
-- of authentication.
use wmbm_16brandnew.Prelude.{ℕ, Bool, true, false, ◌||◌, Option, none, some, ◌==◌, if◌then◌else◌}

pub data CiType : Type 0 where
  ell nwl afl tpl : CiType

-- The rows of `LIST_OF_CI_FIELDS`: the type of a CI field, if it is in the table.
unfoldable pub ci_type_of : ℕ → Option CiType
ci_type_of ci =
    if (ci == 0x51) || ((ci == 0x72) || ((ci == 0x78) || ((ci == 0x79) || (ci == 0x7A))))
    then some tpl
    else if (ci == 0x8C) || ((ci == 0x8D) || ((ci == 0x8E) || ((ci == 0x8F) || (ci == 0x86))))
    then some ell
    else if ci == 0x90
    then some afl
    else if (ci == 0xA0) || ((ci == 0xA1) || ((ci == 0xA2) || (ci == 0xA3)))
    then some tpl
    else none

unfoldable pub same_ci_type : CiType → CiType → Bool
same_ci_type ell ell = true
same_ci_type nwl nwl = true
same_ci_type afl afl = true
same_ci_type tpl tpl = true
same_ci_type _ _ = false

unfoldable pub is_ci_field_of_type : ℕ → CiType → Bool
is_ci_field_of_type ci type_ = elim (ci_type_of ci) [ none ↦ false | some c ↦ same_ci_type c type_ ]

-- `none` stands for a negative length: -1, which is any length, and -2 for an unknown field.
unfoldable pub ci_field_length : ℕ → Option ℕ
ci_field_length ci =
    if ci == 0x8C
    then some 2
    else if ci == 0x8D
    then some 8
    else if ci == 0x8E
    then some 10
    else if ci == 0x8F
    then some 16
    else if ci == 0x86
    then none
    else if ci == 0x90
    then some 10
    else elim (ci_type_of ci) [ none ↦ none | some c ↦ some 0 ]

pub data EllSecurityMode : Type 0 where
  ell_no_security ell_aes_ctr ell_reserved : EllSecurityMode

unfoldable pub to_ell_security_mode : ℕ → EllSecurityMode
to_ell_security_mode i =
    if i == 0 then ell_no_security else if i == 1 then ell_aes_ctr else ell_reserved

unfoldable pub from_ell_security_mode : EllSecurityMode → ℕ
from_ell_security_mode ell_no_security = 0
from_ell_security_mode ell_aes_ctr = 1
from_ell_security_mode ell_reserved = 2

pub data TplSecurityMode : Type 0 where
  no_security mfct_specific des_no_iv_deprecated des_iv_deprecated specific_4 aes_cbc_iv :
      TplSecurityMode
  reserved_6 aes_cbc_no_iv aes_ctr_cmac aes_cgm aes_ccm reserved_11 reserved_12 : TplSecurityMode
  specific_13 reserved_14 specific_15 specific_16_31 : TplSecurityMode

unfoldable pub to_tpl_security_mode : ℕ → TplSecurityMode
to_tpl_security_mode i =
    if i == 0
    then no_security
    else if i == 1
    then mfct_specific
    else if i == 2
    then des_no_iv_deprecated
    else if i == 3
    then des_iv_deprecated
    else if i == 4
    then specific_4
    else if i == 5
    then aes_cbc_iv
    else if i == 6
    then reserved_6
    else if i == 7
    then aes_cbc_no_iv
    else if i == 8
    then aes_ctr_cmac
    else if i == 9
    then aes_cgm
    else if i == 10
    then aes_ccm
    else if i == 11
    then reserved_11
    else if i == 12
    then reserved_12
    else if i == 13
    then specific_13
    else if i == 14
    then reserved_14
    else if i == 15
    then specific_15
    else specific_16_31

unfoldable pub from_tpl_security_mode : TplSecurityMode → ℕ
from_tpl_security_mode no_security = 0
from_tpl_security_mode mfct_specific = 1
from_tpl_security_mode des_no_iv_deprecated = 2
from_tpl_security_mode des_iv_deprecated = 3
from_tpl_security_mode specific_4 = 4
from_tpl_security_mode aes_cbc_iv = 5
from_tpl_security_mode reserved_6 = 6
from_tpl_security_mode aes_cbc_no_iv = 7
from_tpl_security_mode aes_ctr_cmac = 8
from_tpl_security_mode aes_cgm = 9
from_tpl_security_mode aes_ccm = 10
from_tpl_security_mode reserved_11 = 11
from_tpl_security_mode reserved_12 = 12
from_tpl_security_mode specific_13 = 13
from_tpl_security_mode reserved_14 = 14
from_tpl_security_mode specific_15 = 15
from_tpl_security_mode specific_16_31 = 16

-- `toLen(fromIntToAFLAuthenticationType(i))`: the length of the authentication code.
unfoldable pub mac_length : ℕ → ℕ
mac_length i =
    if i == 3
    then 2
    else if i == 4
    then 4
    else if i == 5
    then 8
    else if i == 6
    then 12
    else if i == 7
    then 16
    else if i == 8
    then 12
    else 0
