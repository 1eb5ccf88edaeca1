-- ===== src/Hashab/Mix.antt =====
-- src/crypto/hashab/reduce.rs: its word functions, and the statements over the three arrays, in seven
-- groups. A group takes and gives the arrays, with the locals that later groups read.
use libopod.Base.{List}
use libopod.Base.Tests.{◌==◌, if◌then◌else◌}
use libopod.Hashab.Word.{
  Word, at, set, index, complement, neg, rotate_left, rotate_right, ◌+◌, ◌-◌, ◌*◌, ◌/◌, ◌&◌, ◌^◌,
  ◌bar◌, ◌>>◌,
}

unfoldable pub rotate_left_or_ones : Word → Word → Word
rotate_left_or_ones value count =
    if index count 31 == 0 then 0xffffffff else rotate_left value (index count 31)

unfoldable pub rotate_right_or_ones : Word → Word → Word
rotate_right_or_ones value count =
    if index count 31 == 0 then 0xffffffff else rotate_right value (index count 31)

unfoldable pub choose : Word → Word → Word → Word
choose mask when_set when_clear = mask & when_set bar complement mask & when_clear

unfoldable pub majority : Word → Word → Word → Word
majority a b c = a & b bar a & c bar b & c

pub record Mix : Type 0 where
  pub key : List Word
  pub state : List Word
  pub work : List Word
  pub s7 : Word
  pub s8 : Word
  pub s9 : Word
  pub s18 : Word
  pub s19 : Word
  pub s6 : Word
  pub s10 : Word
  pub s21 : Word
  pub s25 : Word
  pub s22 : Word
  pub s24 : Word
  pub s26 : Word

module _ (table : List Word) where
  unfoldable pub mix_first : Mix → Mix
  unfolding choose majority rotate_left_or_ones rotate_right_or_ones
  mix_first m =
      let key = m.key in
      let state = m.state in
      let work = m.work in
      let s7 = at work 22 / 5 * 0xc3456f96 in
      let s8 = majority (at state 60) (at table 63) 0x908d4d25 / 3 + 0xef9695dd in
      let key =
        set key 42
          (at key 42 + ((at table (index (at work 33) 63) & 0x3cba9069) + 0x43440114) / 5) in
      let s9 = choose (at state 26) (at state (index (at work 87) 63)) (complement 0x3cba9069) in
      let rotation = rotate_left_or_ones 0x6f72b2da (neg (at state (index (at work 55) 63)) & 31) in
      let k = at key (index s7 63) / 5 in
      let selected = choose (at state 42) (complement 0x3047874d) (complement 0xb0dea603) in
      let s10 = rotation ^ 0x908d4d25 in
      let key = set key 63 (at key 63 - majority selected k s7) in
      let state = set state 25 (at state 25 + at key (index s7 63)) in
      let state = set state 60 (choose (at key 21) s8 (complement 0x1fb7d8d3) * at work 122) in
      let work =
        set work 5
          (at work 5 + choose s7 (complement 0xd36d6fb6) (at table (index (at work 120) 63))) in
      let key = set key 35 (at key 35 + 0xb1a7e76f) in
      let s18 = at key (index s10 63) ^ 0x908d4d25 in
      record m {
        key = key;
        state = state;
        work = work;
        s7 = s7;
        s8 = s8;
        s9 = s9;
        s18 = s18;
        s10 = s10;
      }

  unfoldable pub mix_second : Mix → Mix
  unfolding choose majority rotate_left_or_ones rotate_right_or_ones
  mix_second m =
      let key = m.key in
      let state = m.state in
      let work = m.work in
      let s7 = m.s7 in
      let s18 = m.s18 in
      let state =
        set state 44
          (at state 44 ^ 3 * choose 0xc3456f96 (at table 29) (at table (index (at work 18) 63))) in
      let work = set work 107 (at work 107 + (at state (index (at work 44) 63) + 1)) in
      let inverted_rotation = complement (rotate_right_or_ones 0xb0dea603 (at work 71 & 31)) in
      let key =
        set key 54 (at key 54 - majority (at state 29) inverted_rotation (complement 0x6f72b2da)) in
      let work = set work 62 (at work 62 ^ 0xdbd3d289) in
      let key = set key 19 (
        at key 19
        + (at state (index s7 63) / 5
            - majority (at state 45) (at table (index (at work 45) 63)) (complement 0x4cf50fa3))) in
      let squared = at state (index s18 63) * at state (index s18 63) in
      let key = set key 49 (at table (index squared 63)) in
      let key = set key 21 (at key 21 ^ at table (index (at work 27) 63)) in
      let s19 = 0x908d4d24 - rotate_left_or_ones 0x98b99bd8 (at state 60 * at state 41 & 31) in
      let state = set state 10 (at work 73) in
      let key = set key 20 (
        at key 20
        ^ rotate_left_or_ones (complement (at state (index (at work 98) 63))) (at key 60 & 31)) in
      let key =
        set key 49
          (at key 49 + (choose (at state 56) (at key 41) (at table (index s19 63)) >> 1)) in
      record m { key = key; state = state; work = work; s19 = s19 }

  unfoldable pub mix_third : Mix → Mix
  unfolding choose majority rotate_left_or_ones rotate_right_or_ones
  mix_third m =
      let key = m.key in
      let state = m.state in
      let work = m.work in
      let s8 = m.s8 in
      let s9 = m.s9 in
      let s18 = m.s18 in
      let table_word = at table (index (at work 10) 63) in
      let state =
        set state 24
          (at state 24 ^ choose (at key 39) (at state 37) (table_word * table_word * table_word)) in
      let s6 = at table (index (at work 43) 63) & complement 0x45059986 in
      let s6 = (s6 bar 0x41050082) ^ 0x3cba9069 in
      let rotated = rotate_right_or_ones (complement s18) (at table (index (at work 31) 63) & 31) in
      let state = set state 13 (
        at state 13
        ^ (at key (index (at work 50) 63) & complement 0x147f3886
            bar complement (rotated bar 0xeb80c779))) in
      let key = set key 28 (
        at key 28
        - choose (at key 35) (majority (at key 58) (at table (index s9 63)) 0x908d4d25)
            (complement (at key 29))) in
      let state =
        set state 23
          (at state 23 + complement (majority s8 (at state (index (at work 106) 63)) 0x2725fe3b)) in
      let state = set state 24 (at state 24 ^ at work 118 * at work 118) in
      let key = set key 35 (
        at key 35
        ^ majority (at state 54) (2 * at work 108) (at state 41 * at state 41 * at state 41)) in
      let work = set work 34 (
        at work 34
        ^ choose s18 (at state (index (at work 39) 63) ^ at state 37) (at table 29 + 0x02e5a7e3)) in
      record m { key = key; state = state; work = work; s6 = s6 }

  unfoldable pub mix_fourth : Mix → Mix
  unfolding choose majority rotate_left_or_ones rotate_right_or_ones
  mix_fourth m =
      let key = m.key in
      let state = m.state in
      let work = m.work in
      let s7 = m.s7 in
      let s9 = m.s9 in
      let s19 = m.s19 in
      let s6 = m.s6 in
      let state = set state 42 (
        at state 42
        ^ choose (at state 40) (at state (index (at work 35) 63)) (at work 78 * at work 78)) in
      let work = set work 49 (at work 49 + (3 * at key (index (at work 39) 63) + 0x62116be6)) in
      let key = set key 48 (s7) in
      let state =
        set state 62 (at key (index s19 63) - at state (index (at work 93) 63) - 0xef9695dd) in
      let key = set key 55 (at key 55 + (at key 60 / 3 - at state (index (at work 112) 63) / 3)) in
      let s21 = majority s6 (at table 60 + 0x4d485456) 0x41d44d69 + 0x3cba9069 in
      let s25 = s9 ^ at key 37 in
      let state = set state 55 (at state 55 + 0x1d0f1b76) in
      let work = set work 77 (at work 77 - at table (index ((at state 60 & 127) >> 1) 63)) in
      record m { key = key; state = state; work = work; s21 = s21; s25 = s25 }

  unfoldable pub mix_fifth : Mix → Mix
  unfolding choose majority rotate_left_or_ones rotate_right_or_ones
  mix_fifth m =
      let key = m.key in
      let state = m.state in
      let work = m.work in
      let state = set state 29 (at key (index (at work 68) 63) / 15) in
      let state =
        set state 46 (at state 46 ^ at table (index (at table (index (at table 37) 63)) 63)) in
      let s22 = 0x4f2159fc - majority (at state 59) (at table 29) (at table 60 / 5) in
      let s24 =
        choose 0xbd06dd88 (majority 0x59089be9 (at table (index (at work 16) 63)) (at state 60))
          (at table 60)
        + 0x4f2159fc in
      let work = set work 10 (0xde2849dd) in
      let work = set work 8 (
        at work 8
        + majority (choose (at state 52) 0x908d4d25 0x5987b420) (at work 48 ^ s22) 0x51127d0f) in
      let state = set state 20 (at state 20 + at table (index (at work 1) 63)) in
      let work =
        set work 32 (at work 32 + (1 + rotate_right_or_ones 0x0c7ad237 (s22 * s22 * s22 & 31))) in
      let state = set state 4 (
        at state 4
        - (choose (at key 35) 0x4f2159fc 0xc0540978
            bar complement (rotate_right_or_ones 0x46ef99f4 (at key 41 & 31)))) in
      let state = set state 60 (
        complement (
          rotate_left_or_ones (complement (at work 62 / 3))
            (at work 22 + at key (index (at work 93) 63) & 31))) in
      let key = set key 30 (0x3cba9069) in
      record m { key = key; state = state; work = work; s22 = s22; s24 = s24 }

  unfoldable pub mix_sixth : Mix → Mix
  unfolding choose majority rotate_left_or_ones rotate_right_or_ones
  mix_sixth m =
      let key = m.key in
      let state = m.state in
      let work = m.work in
      let s6 = m.s6 in
      let key = set key 10 (complement (at table (index (at work 122) 63) + 0x972da190)) in
      let state = set state 46 (
        at state 46
        + majority (at state 8) (at table (index (at work 35) 63) bar at table 41) 0xf3d39067) in
      let s26 =
        0x3cba9069
        - ((at table (index (at work 67) 63) bar at table (index (at work 120) 63))
            - at table (index (at work 98) 63)
            - 1) in
      let selected_state = at state (index (at work 38) 63) >> 1 in
      let state = set state 17 (at state 17 ^ selected_state * selected_state * selected_state) in
      let state = set state 44 (at state 44 + at table 62) in
      let key = set key 26 (at key 26 - at table (index s6 63)) in
      let first = choose 0x313ec15d (at key (index s6 63)) (at state 60) in
      let second = at table (index (at work 79) 63) & 0x7fbbd9fd bar 0x0c201068 in
      let key = set key 35 (at key 35 - majority (at key 34) first second) in
      let key =
        set key 16
          (at key 16 ^ majority (at state 43) (at work 27 >> 1) (at state 41 bar at state 37)) in
      record m { key = key; state = state; s26 = s26 }

  unfoldable pub mix_seventh : Mix → Mix
  unfolding choose majority rotate_left_or_ones rotate_right_or_ones
  mix_seventh m =
      let key = m.key in
      let state = m.state in
      let work = m.work in
      let work = set work 33 (0x1c3e9665) in
      let key = set key 58 (at key 58 - at work 118) in
      let state = set state 21 (at state 21 + at key 60) in
      let state = set state 10 (at state 10 - at state 60) in
      record m { key = key; state = state; work = work }
