-- ===== src/Airspy/Overlay.antt =====
-- The members of `struct airspy_adsb_overlay` in adsbus/airspy_adsb.c, by their offsets.
use adsb_tools.Prelude.{ℕ}

abbrev pub semicolon1 : ℕ
semicolon1 = 0

abbrev pub mlat_timestamp : ℕ
mlat_timestamp = 1

abbrev pub semicolon2 : ℕ
semicolon2 = 9

abbrev pub mlat_precision : ℕ
mlat_precision = 10

abbrev pub semicolon3 : ℕ
semicolon3 = 12

abbrev pub rssi : ℕ
rssi = 13

abbrev pub semicolon4 : ℕ
semicolon4 = 17

abbrev pub cr_lf : ℕ
cr_lf = 18

abbrev pub lf : ℕ
lf = 19
