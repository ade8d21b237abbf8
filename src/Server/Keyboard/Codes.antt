-- ===== src/Server/Keyboard/Codes.antt =====
-- Linux key codes (linux/input-event-codes.h) of server/src/pipewire/eis_keyboard.rs.
use webshooter.Base.{ℕ}

abbrev pub key_esc : ℕ
key_esc = 1

abbrev pub key_1 : ℕ
key_1 = 2

abbrev pub key_2 : ℕ
key_2 = 3

abbrev pub key_3 : ℕ
key_3 = 4

abbrev pub key_4 : ℕ
key_4 = 5

abbrev pub key_5 : ℕ
key_5 = 6

abbrev pub key_6 : ℕ
key_6 = 7

abbrev pub key_7 : ℕ
key_7 = 8

abbrev pub key_8 : ℕ
key_8 = 9

abbrev pub key_9 : ℕ
key_9 = 10

abbrev pub key_0 : ℕ
key_0 = 11

abbrev pub key_minus : ℕ
key_minus = 12

abbrev pub key_equal : ℕ
key_equal = 13

abbrev pub key_backspace : ℕ
key_backspace = 14

abbrev pub key_tab : ℕ
key_tab = 15

abbrev pub key_q : ℕ
key_q = 16

abbrev pub key_w : ℕ
key_w = 17

abbrev pub key_e : ℕ
key_e = 18

abbrev pub key_r : ℕ
key_r = 19

abbrev pub key_t : ℕ
key_t = 20

abbrev pub key_y : ℕ
key_y = 21

abbrev pub key_u : ℕ
key_u = 22

abbrev pub key_i : ℕ
key_i = 23

abbrev pub key_o : ℕ
key_o = 24

abbrev pub key_p : ℕ
key_p = 25

abbrev pub key_leftbrace : ℕ
key_leftbrace = 26

abbrev pub key_backslash : ℕ
key_backslash = 27

abbrev pub key_enter : ℕ
key_enter = 28

abbrev pub key_leftctrl : ℕ
key_leftctrl = 29

abbrev pub key_a : ℕ
key_a = 30

abbrev pub key_s : ℕ
key_s = 31

abbrev pub key_d : ℕ
key_d = 32

abbrev pub key_f : ℕ
key_f = 33

abbrev pub key_g : ℕ
key_g = 34

abbrev pub key_h : ℕ
key_h = 35

abbrev pub key_j : ℕ
key_j = 36

abbrev pub key_k : ℕ
key_k = 37

abbrev pub key_l : ℕ
key_l = 38

abbrev pub key_semicolon : ℕ
key_semicolon = 39

abbrev pub key_apostrophe : ℕ
key_apostrophe = 40

abbrev pub key_grave : ℕ
key_grave = 41

abbrev pub key_leftshift : ℕ
key_leftshift = 42

abbrev pub key_backslash2 : ℕ
key_backslash2 = 43

abbrev pub key_z : ℕ
key_z = 44

abbrev pub key_x : ℕ
key_x = 45

abbrev pub key_c : ℕ
key_c = 46

abbrev pub key_v : ℕ
key_v = 47

abbrev pub key_b : ℕ
key_b = 48

abbrev pub key_n : ℕ
key_n = 49

abbrev pub key_m : ℕ
key_m = 50

abbrev pub key_comma : ℕ
key_comma = 51

abbrev pub key_dot : ℕ
key_dot = 52

abbrev pub key_slash : ℕ
key_slash = 53

abbrev pub key_leftalt : ℕ
key_leftalt = 56

abbrev pub key_space : ℕ
key_space = 57

abbrev pub key_capslock : ℕ
key_capslock = 58

abbrev pub key_f1 : ℕ
key_f1 = 59

abbrev pub key_f2 : ℕ
key_f2 = 60

abbrev pub key_f3 : ℕ
key_f3 = 61

abbrev pub key_f4 : ℕ
key_f4 = 62

abbrev pub key_f5 : ℕ
key_f5 = 63

abbrev pub key_f6 : ℕ
key_f6 = 64

abbrev pub key_f7 : ℕ
key_f7 = 65

abbrev pub key_f8 : ℕ
key_f8 = 66

abbrev pub key_f9 : ℕ
key_f9 = 67

abbrev pub key_f10 : ℕ
key_f10 = 68

abbrev pub key_numlock : ℕ
key_numlock = 69

abbrev pub key_scrolllock : ℕ
key_scrolllock = 70

abbrev pub key_f11 : ℕ
key_f11 = 87

abbrev pub key_f12 : ℕ
key_f12 = 88

abbrev pub key_sysrq : ℕ
key_sysrq = 99

abbrev pub key_home : ℕ
key_home = 102

abbrev pub key_up : ℕ
key_up = 103

abbrev pub key_pageup : ℕ
key_pageup = 104

abbrev pub key_left : ℕ
key_left = 105

abbrev pub key_right : ℕ
key_right = 106

abbrev pub key_end : ℕ
key_end = 107

abbrev pub key_down : ℕ
key_down = 108

abbrev pub key_pagedown : ℕ
key_pagedown = 109

abbrev pub key_insert : ℕ
key_insert = 110

abbrev pub key_delete : ℕ
key_delete = 111

abbrev pub key_pause : ℕ
key_pause = 119

abbrev pub key_leftmeta : ℕ
key_leftmeta = 125

abbrev pub key_kp0 : ℕ
key_kp0 = 82

abbrev pub key_kp1 : ℕ
key_kp1 = 79

abbrev pub key_kp2 : ℕ
key_kp2 = 80

abbrev pub key_kp3 : ℕ
key_kp3 = 81

abbrev pub key_kp4 : ℕ
key_kp4 = 75

abbrev pub key_kp5 : ℕ
key_kp5 = 76

abbrev pub key_kp6 : ℕ
key_kp6 = 77

abbrev pub key_kp7 : ℕ
key_kp7 = 71

abbrev pub key_kp8 : ℕ
key_kp8 = 72

abbrev pub key_kp9 : ℕ
key_kp9 = 73

abbrev pub key_kpplus : ℕ
key_kpplus = 78

abbrev pub key_kpminus : ℕ
key_kpminus = 74

abbrev pub key_kpslash : ℕ
key_kpslash = 98

abbrev pub key_kpasterisk : ℕ
key_kpasterisk = 55

abbrev pub key_kpenter : ℕ
key_kpenter = 96

abbrev pub key_kpdot : ℕ
key_kpdot = 83
