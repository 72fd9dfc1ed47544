-- ===== src/Sched/Table/High.antt =====
-- src/rib/rib_common.cc: rows 18 to 26 of TBStable, ten columns to a line.
use flexran_rtc.Base.{ℕ, List, ◌++◌}
use flexran_rtc.Sched.Table.Row.{ten}

unfoldable pub row18 : List ℕ
row18 =
    ten 376 776 1160 1544 1992 2344 2792 3112 3624 4008
    ++ ten 4392 4776 5160 5544 5992 6200 6712 7224 7480 7992
    ++ ten 8248 8760 9144 9528 9912 10296 10680 11064 11448 11832
    ++ ten 12216 12576 12960 13536 14112 14112 14688 15264 15264 15840
    ++ ten 16416 16416 16992 17568 17568 18336 18336 19080 19080 19848
    ++ ten 19848 20616 21384 21384 22152 22152 22920 22920 23688 23688
    ++ ten 24496 24496 24496 25456 25456 26416 26416 27376 27376 27376
    ++ ten 28336 28336 29296 29296 29296 30576 30576 30576 31704 31704
    ++ ten 31704 32856 32856 32856 34008 34008 34008 35160 35160 35160
    ++ ten 36696 36696 36696 37888 37888 37888 37888 39232 39232 39232
    ++ ten 40576 40576 40576 40576 42368 42368 42368 42368 43816 43816

unfoldable pub row19 : List ℕ
row19 =
    ten 408 840 1288 1736 2152 2600 2984 3496 3880 4264
    ++ ten 4776 5160 5544 5992 6456 6968 7224 7736 8248 8504
    ++ ten 9144 9528 9912 10296 10680 11064 11448 12216 12576 12960
    ++ ten 13536 13536 14112 14688 15264 15264 15840 16416 16992 16992
    ++ ten 17568 18336 18336 19080 19080 19848 20616 20616 21384 21384
    ++ ten 22152 22152 22920 22920 23688 24496 24496 25456 25456 25456
    ++ ten 26416 26416 27376 27376 28336 28336 29296 29296 29296 30576
    ++ ten 30576 30576 31704 31704 32856 32856 32856 34008 34008 34008
    ++ ten 35160 35160 35160 36696 36696 36696 37888 37888 37888 39232
    ++ ten 39232 39232 40576 40576 40576 40576 42368 42368 42368 43816
    ++ ten 43816 43816 43816 45352 45352 45352 46888 46888 46888 46888

unfoldable pub row20 : List ℕ
row20 =
    ten 440 904 1384 1864 2344 2792 3240 3752 4136 4584
    ++ ten 5160 5544 5992 6456 6968 7480 7992 8248 8760 9144
    ++ ten 9912 10296 10680 11064 11448 12216 12576 12960 13536 14112
    ++ ten 14688 14688 15264 15840 16416 16992 16992 17568 18336 18336
    ++ ten 19080 19848 19848 20616 20616 21384 22152 22152 22920 22920
    ++ ten 23688 24496 24496 25456 25456 26416 26416 27376 27376 28336
    ++ ten 28336 29296 29296 29296 30576 30576 31704 31704 31704 32856
    ++ ten 32856 34008 34008 34008 35160 35160 35160 36696 36696 36696
    ++ ten 37888 37888 39232 39232 39232 40576 40576 40576 42368 42368
    ++ ten 42368 42368 43816 43816 43816 45352 45352 45352 46888 46888
    ++ ten 46888 46888 48936 48936 48936 48936 48936 51024 51024 51024

unfoldable pub row21 : List ℕ
row21 =
    ten 488 1000 1480 1992 2472 2984 3496 4008 4584 4968
    ++ ten 5544 5992 6456 6968 7480 7992 8504 9144 9528 9912
    ++ ten 10680 11064 11448 12216 12576 12960 13536 14112 14688 15264
    ++ ten 15840 15840 16416 16992 17568 18336 18336 19080 19848 19848
    ++ ten 20616 21384 21384 22152 22920 22920 23688 24496 24496 25456
    ++ ten 25456 26416 26416 27376 27376 28336 28336 29296 29296 30576
    ++ ten 30576 31704 31704 31704 32856 32856 34008 34008 35160 35160
    ++ ten 35160 36696 36696 36696 37888 37888 39232 39232 39232 40576
    ++ ten 40576 40576 42368 42368 42368 43816 43816 43816 45352 45352
    ++ ten 45352 46888 46888 46888 46888 48936 48936 48936 48936 51024
    ++ ten 51024 51024 51024 52752 52752 52752 52752 55056 55056 55056

unfoldable pub row22 : List ℕ
row22 =
    ten 520 1064 1608 2152 2664 3240 3752 4264 4776 5352
    ++ ten 5992 6456 6968 7480 7992 8504 9144 9528 10296 10680
    ++ ten 11448 11832 12576 12960 13536 14112 14688 15264 15840 16416
    ++ ten 16992 16992 17568 18336 19080 19080 19848 20616 21384 21384
    ++ ten 22152 22920 22920 23688 24496 24496 25456 25456 26416 27376
    ++ ten 27376 28336 28336 29296 29296 30576 30576 31704 31704 32856
    ++ ten 32856 34008 34008 34008 35160 35160 36696 36696 36696 37888
    ++ ten 37888 39232 39232 40576 40576 40576 42368 42368 42368 43816
    ++ ten 43816 43816 45352 45352 45352 46888 46888 46888 48936 48936
    ++ ten 48936 48936 51024 51024 51024 51024 52752 52752 52752 55056
    ++ ten 55056 55056 55056 57336 57336 57336 57336 59256 59256 59256

unfoldable pub row23 : List ℕ
row23 =
    ten 552 1128 1736 2280 2856 3496 4008 4584 5160 5736
    ++ ten 6200 6968 7480 7992 8504 9144 9912 10296 11064 11448
    ++ ten 12216 12576 12960 13536 14112 14688 15264 15840 16416 16992
    ++ ten 17568 18336 19080 19848 19848 20616 21384 22152 22152 22920
    ++ ten 23688 24496 24496 25456 25456 26416 27376 27376 28336 28336
    ++ ten 29296 29296 30576 30576 31704 31704 32856 32856 34008 34008
    ++ ten 35160 35160 36696 36696 37888 37888 37888 39232 39232 40576
    ++ ten 40576 40576 42368 42368 43816 43816 43816 45352 45352 45352
    ++ ten 46888 46888 46888 48936 48936 48936 51024 51024 51024 51024
    ++ ten 52752 52752 52752 55056 55056 55056 55056 57336 57336 57336
    ++ ten 57336 59256 59256 59256 59256 61664 61664 61664 61664 63776

unfoldable pub row24 : List ℕ
row24 =
    ten 584 1192 1800 2408 2984 3624 4264 4968 5544 5992
    ++ ten 6712 7224 7992 8504 9144 9912 10296 11064 11448 12216
    ++ ten 12960 13536 14112 14688 15264 15840 16416 16992 17568 18336
    ++ ten 19080 19848 19848 20616 21384 22152 22920 22920 23688 24496
    ++ ten 25456 25456 26416 26416 27376 28336 28336 29296 29296 30576
    ++ ten 31704 31704 32856 32856 34008 34008 35160 35160 36696 36696
    ++ ten 36696 37888 37888 39232 39232 40576 40576 42368 42368 42368
    ++ ten 43816 43816 45352 45352 45352 46888 46888 46888 48936 48936
    ++ ten 48936 51024 51024 51024 52752 52752 52752 52752 55056 55056
    ++ ten 55056 57336 57336 57336 57336 59256 59256 59256 61664 61664
    ++ ten 61664 61664 63776 63776 63776 63776 66592 66592 66592 66592

unfoldable pub row25 : List ℕ
row25 =
    ten 616 1256 1864 2536 3112 3752 4392 5160 5736 6200
    ++ ten 6968 7480 8248 8760 9528 10296 10680 11448 12216 12576
    ++ ten 13536 14112 14688 15264 15840 16416 16992 17568 18336 19080
    ++ ten 19848 20616 20616 21384 22152 22920 23688 24496 24496 25456
    ++ ten 26416 26416 27376 28336 28336 29296 29296 30576 31704 31704
    ++ ten 32856 32856 34008 34008 35160 35160 36696 36696 37888 37888
    ++ ten 39232 39232 40576 40576 40576 42368 42368 43816 43816 43816
    ++ ten 45352 45352 46888 46888 46888 48936 48936 48936 51024 51024
    ++ ten 51024 52752 52752 52752 55056 55056 55056 55056 57336 57336
    ++ ten 57336 59256 59256 59256 61664 61664 61664 61664 63776 63776
    ++ ten 63776 63776 66592 66592 66592 66592 68808 68808 68808 71112

unfoldable pub row26 : List ℕ
row26 =
    ten 712 1480 2216 2984 3752 4392 5160 5992 6712 7480
    ++ ten 8248 8760 9528 10296 11064 11832 12576 13536 14112 14688
    ++ ten 15264 16416 16992 17568 18336 19080 19848 20616 21384 22152
    ++ ten 22920 23688 24496 25456 25456 26416 27376 28336 29296 29296
    ++ ten 30576 30576 31704 32856 32856 34008 35160 35160 36696 36696
    ++ ten 37888 37888 39232 40576 40576 40576 42368 42368 43816 43816
    ++ ten 45352 45352 46888 46888 48936 48936 48936 51024 51024 52752
    ++ ten 52752 52752 55056 55056 55056 55056 57336 57336 57336 59256
    ++ ten 59256 59256 61664 61664 61664 63776 63776 63776 66592 66592
    ++ ten 66592 68808 68808 68808 71112 71112 71112 73712 73712 75376
    ++ ten 75376 75376 75376 75376 75376 75376 75376 75376 75376 75376
