-- ===== src/Source/Tests.antt =====
-- The theorems on ranges at two ranges of one source.
use cyntatic.Prelude.{◌≡◌, arith}
use cyntatic.Source.{Range, merge, merge_with}
use cyntatic.Source.Merge.{merge-merge_with}

abbrev near : Range
near = record { source = 1; start = 2; end = 5; coord = record { line = 0; column = 2 } }

abbrev far : Range
far = record { source = 1; start = 7; end = 9; coord = record { line = 1; column = 1 } }

far_near : merge far near ≡ merge_with far near
far_near = merge-merge_with far near (omega arith) (omega arith)
