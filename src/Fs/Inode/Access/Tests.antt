-- ===== src/Fs/Inode/Access/Tests.antt =====
-- Writing into a file and reading it back.
use cs.Base.{ℕ, ◌≡◌, refl, true, some, List, [], ◌∷◌, arith}
use cs.Fs.Device.{Device}
use cs.Fs.FreeMap.{Fs}
use cs.Fs.Inode.Access.{read_at, write_at}
use cs.Fs.Inode.Access.Write.{Writes}
use cs.Fs.Inode.Access.Round.{write_at-Writes, write_at-read_at}
use cs.Fs.Inode.Access.Sample.{blank, small, no_map, small-IsStored}

abbrev text : List ℕ
text = 72 ∷ 101 ∷ 108 ∷ []

write_at-Writes_example :
    (d' : Device) × (write_at no_map true small text 3 290 blank
      ≡ some (3, small, record blank { device = d' }))
    × Writes small.content (λ k. 5) 3 290 text blank.device d'
write_at-Writes_example =
    write_at-Writes no_map small (λ k. 5) 3 290 text blank small-IsStored refl (omega arith)
      (omega arith) (omega arith)

write_at-read_at_example :
    (fs' : Fs) × (write_at no_map true small text 3 290 blank ≡ some (3, small, fs'))
    × (read_at true fs'.device small.content 3 290 ≡ some text)
write_at-read_at_example =
    write_at-read_at no_map small (λ k. 5) 290 text blank small-IsStored refl (omega arith)
      (omega arith)
