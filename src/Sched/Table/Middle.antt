-- ===== src/Sched/Table/Middle.antt =====
-- src/rib/rib_common.cc: rows 9 to 17 of TBStable, ten columns to a line.
use flexran_rtc.Base.{ℕ, List, ◌++◌}
use flexran_rtc.Sched.Table.Row.{ten}

unfoldable pub row9 : List ℕ
row9 =
    ten 136 296 456 616 776 936 1096 1256 1416 1544
    ++ ten 1736 1864 2024 2216 2344 2536 2664 2856 2984 3112
    ++ ten 3368 3496 3624 3752 4008 4136 4264 4392 4584 4776
    ++ ten 4968 5160 5160 5352 5544 5736 5736 5992 6200 6200
    ++ ten 6456 6712 6712 6968 6968 7224 7480 7480 7736 7992
    ++ ten 7992 8248 8248 8504 8760 8760 9144 9144 9144 9528
    ++ ten 9528 9912 9912 10296 10296 10296 10680 10680 11064 11064
    ++ ten 11064 11448 11448 11832 11832 11832 12216 12216 12576 12576
    ++ ten 12960 12960 12960 13536 13536 13536 13536 14112 14112 14112
    ++ ten 14112 14688 14688 14688 15264 15264 15264 15264 15840 15840
    ++ ten 15840 16416 16416 16416 16416 16992 16992 16992 16992 17568

unfoldable pub row10 : List ℕ
row10 =
    ten 144 328 504 680 872 1032 1224 1384 1544 1736
    ++ ten 1928 2088 2280 2472 2664 2792 2984 3112 3368 3496
    ++ ten 3752 3880 4008 4264 4392 4584 4776 4968 5160 5352
    ++ ten 5544 5736 5736 5992 6200 6200 6456 6712 6712 6968
    ++ ten 7224 7480 7480 7736 7992 7992 8248 8504 8504 8760
    ++ ten 9144 9144 9144 9528 9528 9912 9912 10296 10296 10680
    ++ ten 10680 11064 11064 11448 11448 11448 11832 11832 12216 12216
    ++ ten 12576 12576 12960 12960 12960 13536 13536 13536 14112 14112
    ++ ten 14112 14688 14688 14688 14688 15264 15264 15264 15840 15840
    ++ ten 15840 16416 16416 16416 16992 16992 16992 16992 17568 17568
    ++ ten 17568 18336 18336 18336 18336 18336 19080 19080 19080 19080

unfoldable pub row11 : List ℕ
row11 =
    ten 176 376 584 776 1000 1192 1384 1608 1800 2024
    ++ ten 2216 2408 2600 2792 2984 3240 3496 3624 3880 4008
    ++ ten 4264 4392 4584 4776 4968 5352 5544 5736 5992 5992
    ++ ten 6200 6456 6712 6968 6968 7224 7480 7736 7736 7992
    ++ ten 8248 8504 8760 8760 9144 9144 9528 9528 9912 9912
    ++ ten 10296 10680 10680 11064 11064 11448 11448 11832 11832 12216
    ++ ten 12216 12576 12576 12960 12960 13536 13536 13536 14112 14112
    ++ ten 14112 14688 14688 14688 15264 15264 15840 15840 15840 16416
    ++ ten 16416 16416 16992 16992 16992 17568 17568 17568 18336 18336
    ++ ten 18336 18336 19080 19080 19080 19080 19848 19848 19848 19848
    ++ ten 20616 20616 20616 21384 21384 21384 21384 22152 22152 22152

unfoldable pub row12 : List ℕ
row12 =
    ten 208 440 680 904 1128 1352 1608 1800 2024 2280
    ++ ten 2472 2728 2984 3240 3368 3624 3880 4136 4392 4584
    ++ ten 4776 4968 5352 5544 5736 5992 6200 6456 6712 6712
    ++ ten 6968 7224 7480 7736 7992 8248 8504 8760 8760 9144
    ++ ten 9528 9528 9912 9912 10296 10680 10680 11064 11064 11448
    ++ ten 11832 11832 12216 12216 12576 12576 12960 12960 13536 13536
    ++ ten 14112 14112 14112 14688 14688 15264 15264 15264 15840 15840
    ++ ten 16416 16416 16416 16992 16992 17568 17568 17568 18336 18336
    ++ ten 18336 19080 19080 19080 19080 19848 19848 19848 20616 20616
    ++ ten 20616 21384 21384 21384 21384 22152 22152 22152 22920 22920
    ++ ten 22920 23688 23688 23688 23688 24496 24496 24496 24496 25456

unfoldable pub row13 : List ℕ
row13 =
    ten 224 488 744 1000 1256 1544 1800 2024 2280 2536
    ++ ten 2856 3112 3368 3624 3880 4136 4392 4584 4968 5160
    ++ ten 5352 5736 5992 6200 6456 6712 6968 7224 7480 7736
    ++ ten 7992 8248 8504 8760 9144 9144 9528 9912 9912 10296
    ++ ten 10680 10680 11064 11448 11448 11832 12216 12216 12576 12960
    ++ ten 12960 13536 13536 14112 14112 14688 14688 14688 15264 15264
    ++ ten 15840 15840 16416 16416 16992 16992 16992 17568 17568 18336
    ++ ten 18336 18336 19080 19080 19080 19848 19848 19848 20616 20616
    ++ ten 20616 21384 21384 21384 22152 22152 22152 22920 22920 22920
    ++ ten 23688 23688 23688 24496 24496 24496 25456 25456 25456 25456
    ++ ten 26416 26416 26416 26416 27376 27376 27376 27376 28336 28336

unfoldable pub row14 : List ℕ
row14 =
    ten 256 552 840 1128 1416 1736 1992 2280 2600 2856
    ++ ten 3112 3496 3752 4008 4264 4584 4968 5160 5544 5736
    ++ ten 5992 6200 6456 6968 7224 7480 7736 7992 8248 8504
    ++ ten 8760 9144 9528 9912 9912 10296 10680 11064 11064 11448
    ++ ten 11832 12216 12216 12576 12960 12960 13536 13536 14112 14112
    ++ ten 14688 14688 15264 15264 15840 15840 16416 16416 16992 16992
    ++ ten 17568 17568 18336 18336 18336 19080 19080 19848 19848 19848
    ++ ten 20616 20616 20616 21384 21384 22152 22152 22152 22920 22920
    ++ ten 22920 23688 23688 24496 24496 24496 25456 25456 25456 25456
    ++ ten 26416 26416 26416 27376 27376 27376 28336 28336 28336 28336
    ++ ten 29296 29296 29296 29296 30576 30576 30576 30576 31704 31704

unfoldable pub row15 : List ℕ
row15 =
    ten 280 600 904 1224 1544 1800 2152 2472 2728 3112
    ++ ten 3368 3624 4008 4264 4584 4968 5160 5544 5736 6200
    ++ ten 6456 6712 6968 7224 7736 7992 8248 8504 8760 9144
    ++ ten 9528 9912 10296 10296 10680 11064 11448 11832 11832 12216
    ++ ten 12576 12960 12960 13536 13536 14112 14688 14688 15264 15264
    ++ ten 15840 15840 16416 16416 16992 16992 17568 17568 18336 18336
    ++ ten 18336 19080 19080 19848 19848 20616 20616 20616 21384 21384
    ++ ten 22152 22152 22152 22920 22920 23688 23688 23688 24496 24496
    ++ ten 24496 25456 25456 25456 26416 26416 26416 27376 27376 27376
    ++ ten 28336 28336 28336 29296 29296 29296 29296 30576 30576 30576
    ++ ten 30576 31704 31704 31704 31704 32856 32856 32856 34008 34008

unfoldable pub row16 : List ℕ
row16 =
    ten 328 632 968 1288 1608 1928 2280 2600 2984 3240
    ++ ten 3624 3880 4264 4584 4968 5160 5544 5992 6200 6456
    ++ ten 6712 7224 7480 7736 7992 8504 8760 9144 9528 9912
    ++ ten 9912 10296 10680 11064 11448 11832 12216 12216 12576 12960
    ++ ten 13536 13536 14112 14112 14688 14688 15264 15840 15840 16416
    ++ ten 16416 16992 16992 17568 17568 18336 18336 19080 19080 19848
    ++ ten 19848 19848 20616 20616 21384 21384 22152 22152 22152 22920
    ++ ten 22920 23688 23688 24496 24496 24496 25456 25456 25456 26416
    ++ ten 26416 26416 27376 27376 27376 28336 28336 28336 29296 29296
    ++ ten 29296 30576 30576 30576 30576 31704 31704 31704 31704 32856
    ++ ten 32856 32856 34008 34008 34008 34008 35160 35160 35160 35160

unfoldable pub row17 : List ℕ
row17 =
    ten 336 696 1064 1416 1800 2152 2536 2856 3240 3624
    ++ ten 4008 4392 4776 5160 5352 5736 6200 6456 6712 7224
    ++ ten 7480 7992 8248 8760 9144 9528 9912 10296 10296 10680
    ++ ten 11064 11448 11832 12216 12576 12960 13536 13536 14112 14688
    ++ ten 14688 15264 15264 15840 16416 16416 16992 17568 17568 18336
    ++ ten 18336 19080 19080 19848 19848 20616 20616 20616 21384 21384
    ++ ten 22152 22152 22920 22920 23688 23688 24496 24496 24496 25456
    ++ ten 25456 26416 26416 26416 27376 27376 27376 28336 28336 29296
    ++ ten 29296 29296 30576 30576 30576 30576 31704 31704 31704 32856
    ++ ten 32856 32856 34008 34008 34008 35160 35160 35160 35160 36696
    ++ ten 36696 36696 36696 37888 37888 37888 39232 39232 39232 39232
