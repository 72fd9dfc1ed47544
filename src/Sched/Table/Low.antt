-- ===== src/Sched/Table/Low.antt =====
-- src/rib/rib_common.cc: rows 0 to 8 of TBStable, ten columns to a line.
use flexran_rtc.Base.{ℕ, List, ◌++◌}
use flexran_rtc.Sched.Table.Row.{ten}

unfoldable pub row0 : List ℕ
row0 =
    ten 16 32 56 88 120 152 176 208 224 256
    ++ ten 288 328 344 376 392 424 456 488 504 536
    ++ ten 568 600 616 648 680 712 744 776 776 808
    ++ ten 840 872 904 936 968 1000 1032 1032 1064 1096
    ++ ten 1128 1160 1192 1224 1256 1256 1288 1320 1352 1384
    ++ ten 1416 1416 1480 1480 1544 1544 1608 1608 1608 1672
    ++ ten 1672 1736 1736 1800 1800 1800 1864 1864 1928 1928
    ++ ten 1992 1992 2024 2088 2088 2088 2152 2152 2216 2216
    ++ ten 2280 2280 2280 2344 2344 2408 2408 2472 2472 2536
    ++ ten 2536 2536 2600 2600 2664 2664 2728 2728 2728 2792
    ++ ten 2792 2856 2856 2856 2984 2984 2984 2984 2984 3112

unfoldable pub row1 : List ℕ
row1 =
    ten 24 56 88 144 176 208 224 256 328 344
    ++ ten 376 424 456 488 520 568 600 632 680 712
    ++ ten 744 776 808 872 904 936 968 1000 1032 1064
    ++ ten 1128 1160 1192 1224 1256 1288 1352 1384 1416 1416
    ++ ten 1480 1544 1544 1608 1608 1672 1736 1736 1800 1800
    ++ ten 1864 1864 1928 1992 1992 2024 2088 2088 2152 2152
    ++ ten 2216 2280 2280 2344 2344 2408 2472 2472 2536 2536
    ++ ten 2600 2600 2664 2728 2728 2792 2792 2856 2856 2856
    ++ ten 2984 2984 2984 3112 3112 3112 3240 3240 3240 3240
    ++ ten 3368 3368 3368 3496 3496 3496 3496 3624 3624 3624
    ++ ten 3752 3752 3752 3752 3880 3880 3880 4008 4008 4008

unfoldable pub row2 : List ℕ
row2 =
    ten 32 72 144 176 208 256 296 328 376 424
    ++ ten 472 520 568 616 648 696 744 776 840 872
    ++ ten 936 968 1000 1064 1096 1160 1192 1256 1288 1320
    ++ ten 1384 1416 1480 1544 1544 1608 1672 1672 1736 1800
    ++ ten 1800 1864 1928 1992 2024 2088 2088 2152 2216 2216
    ++ ten 2280 2344 2344 2408 2472 2536 2536 2600 2664 2664
    ++ ten 2728 2792 2856 2856 2856 2984 2984 3112 3112 3112
    ++ ten 3240 3240 3240 3368 3368 3368 3496 3496 3496 3624
    ++ ten 3624 3624 3752 3752 3880 3880 3880 4008 4008 4008
    ++ ten 4136 4136 4136 4264 4264 4264 4392 4392 4392 4584
    ++ ten 4584 4584 4584 4584 4776 4776 4776 4776 4968 4968

unfoldable pub row3 : List ℕ
row3 =
    ten 40 104 176 208 256 328 392 440 504 568
    ++ ten 616 680 744 808 872 904 968 1032 1096 1160
    ++ ten 1224 1256 1320 1384 1416 1480 1544 1608 1672 1736
    ++ ten 1800 1864 1928 1992 2024 2088 2152 2216 2280 2344
    ++ ten 2408 2472 2536 2536 2600 2664 2728 2792 2856 2856
    ++ ten 2984 2984 3112 3112 3240 3240 3368 3368 3496 3496
    ++ ten 3624 3624 3624 3752 3752 3880 3880 4008 4008 4136
    ++ ten 4136 4264 4264 4392 4392 4392 4584 4584 4584 4776
    ++ ten 4776 4776 4776 4968 4968 4968 5160 5160 5160 5352
    ++ ten 5352 5352 5352 5544 5544 5544 5736 5736 5736 5736
    ++ ten 5992 5992 5992 5992 6200 6200 6200 6200 6456 6456

unfoldable pub row4 : List ℕ
row4 =
    ten 56 120 208 256 328 408 488 552 632 696
    ++ ten 776 840 904 1000 1064 1128 1192 1288 1352 1416
    ++ ten 1480 1544 1608 1736 1800 1864 1928 1992 2088 2152
    ++ ten 2216 2280 2344 2408 2472 2600 2664 2728 2792 2856
    ++ ten 2984 2984 3112 3112 3240 3240 3368 3496 3496 3624
    ++ ten 3624 3752 3752 3880 4008 4008 4136 4136 4264 4264
    ++ ten 4392 4392 4584 4584 4584 4776 4776 4968 4968 4968
    ++ ten 5160 5160 5160 5352 5352 5544 5544 5544 5736 5736
    ++ ten 5736 5992 5992 5992 5992 6200 6200 6200 6456 6456
    ++ ten 6456 6456 6712 6712 6712 6968 6968 6968 6968 7224
    ++ ten 7224 7224 7480 7480 7480 7480 7736 7736 7736 7992

unfoldable pub row5 : List ℕ
row5 =
    ten 72 144 224 328 424 504 600 680 776 872
    ++ ten 968 1032 1128 1224 1320 1384 1480 1544 1672 1736
    ++ ten 1864 1928 2024 2088 2216 2280 2344 2472 2536 2664
    ++ ten 2728 2792 2856 2984 3112 3112 3240 3368 3496 3496
    ++ ten 3624 3752 3752 3880 4008 4008 4136 4264 4392 4392
    ++ ten 4584 4584 4776 4776 4776 4968 4968 5160 5160 5352
    ++ ten 5352 5544 5544 5736 5736 5736 5992 5992 5992 6200
    ++ ten 6200 6200 6456 6456 6712 6712 6712 6968 6968 6968
    ++ ten 7224 7224 7224 7480 7480 7480 7736 7736 7736 7992
    ++ ten 7992 7992 8248 8248 8248 8504 8504 8760 8760 8760
    ++ ten 8760 9144 9144 9144 9144 9528 9528 9528 9528 9528

unfoldable pub row6 : List ℕ
row6 =
    ten 328 176 256 392 504 600 712 808 936 1032
    ++ ten 1128 1224 1352 1480 1544 1672 1736 1864 1992 2088
    ++ ten 2216 2280 2408 2472 2600 2728 2792 2984 2984 3112
    ++ ten 3240 3368 3496 3496 3624 3752 3880 4008 4136 4136
    ++ ten 4264 4392 4584 4584 4776 4776 4968 4968 5160 5160
    ++ ten 5352 5352 5544 5736 5736 5992 5992 5992 6200 6200
    ++ ten 6456 6456 6456 6712 6712 6968 6968 6968 7224 7224
    ++ ten 7480 7480 7736 7736 7736 7992 7992 8248 8248 8248
    ++ ten 8504 8504 8760 8760 8760 9144 9144 9144 9144 9528
    ++ ten 9528 9528 9528 9912 9912 9912 10296 10296 10296 10296
    ++ ten 10680 10680 10680 10680 11064 11064 11064 11448 11448 11448

unfoldable pub row7 : List ℕ
row7 =
    ten 104 224 328 472 584 712 840 968 1096 1224
    ++ ten 1320 1480 1608 1672 1800 1928 2088 2216 2344 2472
    ++ ten 2536 2664 2792 2984 3112 3240 3368 3368 3496 3624
    ++ ten 3752 3880 4008 4136 4264 4392 4584 4584 4776 4968
    ++ ten 4968 5160 5352 5352 5544 5736 5736 5992 5992 6200
    ++ ten 6200 6456 6456 6712 6712 6712 6968 6968 7224 7224
    ++ ten 7480 7480 7736 7736 7992 7992 8248 8248 8504 8504
    ++ ten 8760 8760 8760 9144 9144 9144 9528 9528 9528 9912
    ++ ten 9912 9912 10296 10296 10296 10680 10680 10680 11064 11064
    ++ ten 11064 11448 11448 11448 11448 11832 11832 11832 12216 12216
    ++ ten 12216 12576 12576 12576 12960 12960 12960 12960 13536 13536

unfoldable pub row8 : List ℕ
row8 =
    ten 120 256 392 536 680 808 968 1096 1256 1384
    ++ ten 1544 1672 1800 1928 2088 2216 2344 2536 2664 2792
    ++ ten 2984 3112 3240 3368 3496 3624 3752 3880 4008 4264
    ++ ten 4392 4584 4584 4776 4968 4968 5160 5352 5544 5544
    ++ ten 5736 5992 5992 6200 6200 6456 6456 6712 6968 6968
    ++ ten 7224 7224 7480 7480 7736 7736 7992 7992 8248 8504
    ++ ten 8504 8760 8760 9144 9144 9144 9528 9528 9528 9912
    ++ ten 9912 9912 10296 10296 10680 10680 10680 11064 11064 11064
    ++ ten 11448 11448 11448 11832 11832 12216 12216 12216 12576 12576
    ++ ten 12576 12960 12960 12960 13536 13536 13536 13536 14112 14112
    ++ ten 14112 14112 14688 14688 14688 14688 15264 15264 15264 15264
