-- ===== src/Bins/Examples.antt =====
-- Tests of the bucket functions, and the theorems at concrete inputs.
use dtrace.Base.{◌+◌, ◌-◌, ◌^◌, ◌≡◌, refl, arith}
use dtrace.Bins.{high_bit, halve, qbin, lqbin}
use dtrace.Bins.Quantize.{Bucket, qbin-Bucket}
use dtrace.Bins.Linear.{InBucket, lqbin-InBucket}

-- 1000 has ten bits, and -1000 as well.
qbin_both_signs : (qbin 1000 ≡ 73) × (qbin (2 ^ 64 - 1000) ≡ 53)
unfolding qbin high_bit halve
qbin_both_signs = (refl, refl)

qbin-Bucket_example : Bucket (2 ^ 64 - 1000) (qbin (2 ^ 64 - 1000))
qbin-Bucket_example = qbin-Bucket (2 ^ 64 - 1000) (omega arith)

lqbin_within : lqbin (2 ^ 63 + 34) (2 ^ 63 + 10) 5 10 ≡ 3
unfolding lqbin
lqbin_within = refl

lqbin-InBucket_example :
    InBucket (2 ^ 63 + 34) (2 ^ 63 + 10) 5 10 (lqbin (2 ^ 63 + 34) (2 ^ 63 + 10) 5 10)
lqbin-InBucket_example = lqbin-InBucket (2 ^ 63 + 34) (2 ^ 63 + 10) 5 10
