-- ===== src/Net/Examples.antt =====
-- A run of the buffer, and its theorem at a buffer that has been read from.
use gredis.Base.Bytes.{codes}
use gredis.Base.{◌≡◌, ◌==◌, refl, arith, ◌++◌, length, drop}
use gredis.Net.Buffer.Queue.{Holds, buffer-Holds}
use gredis.Net.Buffer.{
  Buffer, readable, is_drained, unread, reset, maybe_compact, append, consume, prepare_write,
  write_at_mark, commit_written, fresh_buffer,
}

abbrev sample : Buffer
sample = record { bytes = codes "abcdef"; read_pos = 4; write_mark = 0 }

-- a capacity of 15 keeps the cursor and one of 7 compacts
buffer_runs :
    (readable (append 15 (codes "gh") sample) ≡ codes "efgh")
    × ((append 15 (codes "gh") sample).read_pos ≡ 4)
    × ((append 7 (codes "gh") sample).read_pos ≡ 0)
    × (readable (append 7 (codes "gh") sample) ≡ codes "efgh")
    × (consume 2 sample ≡ fresh_buffer)
unfolding readable append maybe_compact consume reset fresh_buffer
buffer_runs = (refl, refl, refl, refl, refl)

buffer-Holds_example :
    Holds (readable sample ++ codes "gh") (append 7 (codes "gh") sample)
    × Holds (drop 1 (readable sample)) (consume 1 sample)
    × Holds
        (readable sample ++ codes "gh")
        (commit_written 2 (write_at_mark (codes "gh") (prepare_write 7 16 sample)))
    × (unread sample ≡ length (readable sample))
    × (is_drained sample ≡ (length (readable sample) == 0))
unfolding unread
buffer-Holds_example =
    buffer-Holds sample (codes "gh") 1 16 7 (omega arith) (omega arith) (omega arith)
