-- ===== src/Dma/Bits.antt =====
-- The constants of dma/fsldma.h that the driver uses.
use powerpc_i2c_temp.Prelude.{ℕ}

abbrev pub mr_cs : ℕ
mr_cs = 0x00000001

abbrev pub mr_ca : ℕ
mr_ca = 0x00000008

abbrev pub mr_eie : ℕ
mr_eie = 0x00000040

abbrev pub mr_eolnie : ℕ
mr_eolnie = 0x00000100

abbrev pub mr_eosie : ℕ
mr_eosie = 0x00000200

abbrev pub mr_emp_en : ℕ
mr_emp_en = 0x00200000

abbrev pub mr_ems_en : ℕ
mr_ems_en = 0x00040000

abbrev pub mr_dahe : ℕ
mr_dahe = 0x00002000

abbrev pub mr_sahe : ℕ
mr_sahe = 0x00001000

abbrev pub mr_bwc : ℕ
mr_bwc = 0x08000000

abbrev pub mr_eotie : ℕ
mr_eotie = 0x00000080

abbrev pub mr_prc_rm : ℕ
mr_prc_rm = 0x00000800

abbrev pub sr_ch : ℕ
sr_ch = 0x00000020

abbrev pub sr_pe : ℕ
sr_pe = 0x00000010

abbrev pub sr_cb : ℕ
sr_cb = 0x00000004

abbrev pub sr_eocdi : ℕ
sr_eocdi = 0x00000001

abbrev pub sr_eolni : ℕ
sr_eolni = 0x00000008

abbrev pub satr_snoop_read : ℕ
satr_snoop_read = 0x00050000

abbrev pub datr_snoop_write : ℕ
datr_snoop_write = 0x00050000

abbrev pub eol : ℕ
eol = 1

abbrev pub snen : ℕ
snen = 0x10

abbrev pub bcr_max_cnt : ℕ
bcr_max_cnt = 0x03ffffff

abbrev pub ip_mask : ℕ
ip_mask = 0x00000ff0

abbrev pub ip_85xx : ℕ
ip_85xx = 0x00000010

abbrev pub ip_83xx : ℕ
ip_83xx = 0x00000020

abbrev pub pause_ext : ℕ
pause_ext = 0x00001000

abbrev pub start_ext : ℕ
start_ext = 0x00002000
