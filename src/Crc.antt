-- ===== src/Crc.antt =====
-- crc.c: the CRC-32C of a buffer, by a table of 256 entries, and the routines that build the table. An
-- `unsigned long` has 64 bits.
pub mod Table
pub mod Bounds
use estimators.Prelude.{
  ℕ, zero, suc, ◌+◌, ◌-◌, ◌*◌, ◌/◌, ◌%◌, ◌^◌, ◌==◌, leb, if◌then◌else◌, List, [], ◌∷◌, ◌++◌, get_or,
}

-- Bitwise exclusive or of the `n` low bits.
unfoldable pub xor : ℕ → ℕ → ℕ → ℕ
xor zero a b = 0
xor (suc n) a b = (a + b) % 2 + 2 * xor n (a / 2) (b / 2)

abbrev pub crc32c_poly : ℕ
crc32c_poly = 517762881

-- The loop of `crc_reflect32`, with the rounds that are left. The bit that `|=` sets is not set yet. The
-- `int` that `1 << 31` gives is negative, and its sign fills the high half.
unfoldable pub reflect_bits : ℕ → ℕ → ℕ → ℕ → ℕ
reflect_bits zero i b rw = rw
reflect_bits (suc n) i b rw =
    let bit = if i == 0 then 2 ^ 64 - 2 ^ 31 else 2 ^ (31 - i) in
    reflect_bits n (i + 1) (b / 2) (if b % 2 == 1 then rw + bit else rw)

unfoldable pub crc_reflect32 : ℕ → ℕ
unfolding reflect_bits
crc_reflect32 b = reflect_bits 32 0 b 0

-- The loop of `crc_buildTableEntry`, with the rounds that are left.
unfoldable pub divide_bits : ℕ → ℕ → ℕ
unfolding xor
divide_bits zero rb = rb
divide_bits (suc n) rb =
    let shifted = rb * 2 % 2 ^ 64 in
    divide_bits n (if rb / 2 ^ 31 % 2 == 1 then xor 64 shifted crc32c_poly else shifted)

unfoldable pub crc_build_table_entry : ℕ → ℕ
unfolding crc_reflect32 divide_bits
crc_build_table_entry index = crc_reflect32 (divide_bits 8 (crc_reflect32 index))

abbrev pub row0 : List ℕ
row0 =
    0 ∷ 4067132163 ∷ 3778769143 ∷ 324072436 ∷ 3348797215 ∷ 904991772 ∷ 648144872 ∷ 3570033899
    ∷ 2329499855 ∷ 2024987596 ∷ 1809983544 ∷ 2575936315 ∷ 1296289744 ∷ 3207089363 ∷ 2893594407
    ∷ 1578318884 ∷ 274646895 ∷ 3795141740 ∷ 4049975192 ∷ 51262619 ∷ 3619967088 ∷ 632279923
    ∷ 922689671 ∷ 3298075524 ∷ 2592579488 ∷ 1760304291 ∷ 2075979607 ∷ 2312596564 ∷ 1562183871
    ∷ 2943781820 ∷ 3156637768 ∷ 1313733451 ∷ []

abbrev pub row1 : List ℕ
row1 =
    549293790 ∷ 3537243613 ∷ 3246849577 ∷ 871202090 ∷ 3878099393 ∷ 357341890 ∷ 102525238
    ∷ 4101499445 ∷ 2858735121 ∷ 1477399826 ∷ 1264559846 ∷ 3107202533 ∷ 1845379342 ∷ 2677391885
    ∷ 2361733625 ∷ 2125378298 ∷ 820201905 ∷ 3263744690 ∷ 3520608582 ∷ 598981189 ∷ 4151959214
    ∷ 85089709 ∷ 373468761 ∷ 3827903834 ∷ 3124367742 ∷ 1213305469 ∷ 1526817161 ∷ 2842354314
    ∷ 2107672161 ∷ 2412447074 ∷ 2627466902 ∷ 1861252501 ∷ []

abbrev pub row2 : List ℕ
row2 =
    1098587580 ∷ 3004210879 ∷ 2688576843 ∷ 1378610760 ∷ 2262928035 ∷ 1955203488 ∷ 1742404180
    ∷ 2511436119 ∷ 3416409459 ∷ 969524848 ∷ 714683780 ∷ 3639785095 ∷ 205050476 ∷ 4266873199
    ∷ 3976438427 ∷ 526918040 ∷ 1361435347 ∷ 2739821008 ∷ 2954799652 ∷ 1114974503 ∷ 2529119692
    ∷ 1691668175 ∷ 2005155131 ∷ 2247081528 ∷ 3690758684 ∷ 697762079 ∷ 986182379 ∷ 3366744552
    ∷ 476452099 ∷ 3993867776 ∷ 4250756596 ∷ 255256311 ∷ []

abbrev pub row3 : List ℕ
row3 =
    1640403810 ∷ 2477592673 ∷ 2164122517 ∷ 1922457750 ∷ 2791048317 ∷ 1412925310 ∷ 1197962378
    ∷ 3037525897 ∷ 3944729517 ∷ 427051182 ∷ 170179418 ∷ 4165941337 ∷ 746937522 ∷ 3740196785
    ∷ 3451792453 ∷ 1070968646 ∷ 1905808397 ∷ 2213795598 ∷ 2426610938 ∷ 1657317369 ∷ 3053634322
    ∷ 1147748369 ∷ 1463399397 ∷ 2773627110 ∷ 4215344322 ∷ 153784257 ∷ 444234805 ∷ 3893493558
    ∷ 1021025245 ∷ 3467647198 ∷ 3722505002 ∷ 797665321 ∷ []

abbrev pub row4 : List ℕ
row4 =
    2197175160 ∷ 1889384571 ∷ 1674398607 ∷ 2443626636 ∷ 1164749927 ∷ 3070701412 ∷ 2757221520
    ∷ 1446797203 ∷ 137323447 ∷ 4198817972 ∷ 3910406976 ∷ 461344835 ∷ 3484808360 ∷ 1037989803
    ∷ 781091935 ∷ 3705997148 ∷ 2460548119 ∷ 1623424788 ∷ 1939049696 ∷ 2180517859 ∷ 1429367560
    ∷ 2807687179 ∷ 3020495871 ∷ 1180866812 ∷ 410100952 ∷ 3927582683 ∷ 4182430767 ∷ 186734380
    ∷ 3756733383 ∷ 763408580 ∷ 1053836080 ∷ 3434856499 ∷ []

abbrev pub row5 : List ℕ
row5 =
    2722870694 ∷ 1344288421 ∷ 1131464017 ∷ 2971354706 ∷ 1708204729 ∷ 2545590714 ∷ 2229949006
    ∷ 1988219213 ∷ 680717673 ∷ 3673779818 ∷ 3383336350 ∷ 1002577565 ∷ 4010310262 ∷ 493091189
    ∷ 238226049 ∷ 4233660802 ∷ 2987750089 ∷ 1082061258 ∷ 1395524158 ∷ 2705686845 ∷ 1972364758
    ∷ 2279892693 ∷ 2494862625 ∷ 1725896226 ∷ 952904198 ∷ 3399985413 ∷ 3656866545 ∷ 731699698
    ∷ 4283874585 ∷ 222117402 ∷ 510512622 ∷ 3959836397 ∷ []

abbrev pub row6 : List ℕ
row6 =
    3280807620 ∷ 837199303 ∷ 582374963 ∷ 3504198960 ∷ 68661723 ∷ 4135334616 ∷ 3844915500 ∷ 390545967
    ∷ 1230274059 ∷ 3141532936 ∷ 2825850620 ∷ 1510247935 ∷ 2395924756 ∷ 2091215383 ∷ 1878366691
    ∷ 2644384480 ∷ 3553878443 ∷ 565732008 ∷ 854102364 ∷ 3229815391 ∷ 340358836 ∷ 3861050807
    ∷ 4117890627 ∷ 119113024 ∷ 1493875044 ∷ 2875275879 ∷ 3090270611 ∷ 1247431312 ∷ 2660249211
    ∷ 1828433272 ∷ 2141937292 ∷ 2378227087 ∷ []

abbrev pub row7 : List ℕ
row7 =
    3811616794 ∷ 291187481 ∷ 34330861 ∷ 4032846830 ∷ 615137029 ∷ 3603020806 ∷ 3314634738 ∷ 939183345
    ∷ 1776939221 ∷ 2609017814 ∷ 2295496738 ∷ 2058945313 ∷ 2926798794 ∷ 1545135305 ∷ 1330124605
    ∷ 3173225534 ∷ 4084100981 ∷ 17165430 ∷ 307568514 ∷ 3762199681 ∷ 888469610 ∷ 3332340585
    ∷ 3587147933 ∷ 665062302 ∷ 2042050490 ∷ 2346497209 ∷ 2559330125 ∷ 1793573966 ∷ 3190661285
    ∷ 1279665062 ∷ 1595330642 ∷ 2910671697 ∷ []

abbrev pub crc_c : List ℕ
crc_c = row0 ++ (row1 ++ (row2 ++ (row3 ++ (row4 ++ (row5 ++ (row6 ++ row7))))))

-- The macro `CRC32C`.
unfoldable pub crc32c : ℕ → ℕ → ℕ
unfolding xor
crc32c c d = xor 64 (c / 2 ^ 8) (get_or crc_c (xor 64 c d % 2 ^ 8) 0)

-- The loop of `crc_generate`.
unfoldable pub crc_bytes : ℕ → List ℕ → ℕ
unfolding crc32c
crc_bytes c [] = c
crc_bytes c (d ∷ buffer) = crc_bytes (crc32c c d) buffer

-- From `~0L`; `FAST` is defined.
unfoldable pub crc_generate : List ℕ → ℕ
unfolding crc_bytes
crc_generate buffer = crc_bytes (2 ^ 64 - 1) buffer
