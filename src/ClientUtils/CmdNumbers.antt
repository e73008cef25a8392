-- ===== src/ClientUtils/CmdNumbers.antt =====
-- clientUtils.c: the numbers of the commands that a client can receive, which are the places of their
-- words in the table of commands.c.
use csse2310_assignment.Base.{ℕ}

pub data ClientCmdNumbers : Type 0 where
  who name_taken auth ok kick list msg enter leave : ClientCmdNumbers

abbrev pub number : ClientCmdNumbers → ℕ
number who = 0
number name_taken = 1
number auth = 2
number ok = 3
number kick = 4
number list = 5
number msg = 6
number enter = 7
number leave = 8
