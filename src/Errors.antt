-- ===== src/Errors.antt =====
-- core/include/errno.h
use cenix.Base.{ℕ}

abbrev pub eunknown : ℕ
eunknown = 1

abbrev pub enocapability : ℕ
enocapability = 5

abbrev pub enotsup : ℕ
enotsup = 6

abbrev pub ecapinval : ℕ
ecapinval = 7

abbrev pub etoomuchnesting : ℕ
etoomuchnesting = 8

abbrev pub einval : ℕ
einval = 9

abbrev pub enomem : ℕ
enomem = 11

abbrev pub ecapexists : ℕ
ecapexists = 12

abbrev pub ebadmsg : ℕ
ebadmsg = 14

abbrev pub enoent : ℕ
enoent = 15

abbrev pub enosys : ℕ
enosys = 17

abbrev pub eperm : ℕ
eperm = 18

abbrev pub erofs : ℕ
erofs = 19
